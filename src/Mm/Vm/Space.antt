-- ===== src/Mm/Vm/Space.antt =====
-- An address space as a map from virtual addresses to entries (mm/vm.c): reading it by walkaddr,
-- and a store through the slot that walk returns.
use re_xvapor.Base.{
  ℕ, ◌/◌, ◌^◌, ◌≤◌, ◌<◌, ◌≡◌, ◌≢◌, refl, sym, ◌∙◌, ap, subst, Bool, true, false, Bool-cases, Option,
  none, some, List, [], NotIn, update, ltb, leb, if◌then◌else◌, ◌&&◌, arith, inl, inr,
}
use re_xvapor.Mm.Kalloc.{Kmem}
use re_xvapor.Mm.Kalloc.Chain.{Chain-update}
use re_xvapor.Mm.Pte.{is_valid, is_user, pte_to_pa, px, vpn, maxva}
use re_xvapor.Mm.Pte.Laws.{px-lt}
use re_xvapor.Mm.Vm.{returns, panics, ◌>>=◌, pure, walk_from, walk, walkaddr}
use re_xvapor.Mm.Vm.Table.{entry, Label, label}
use re_xvapor.Mm.Vm.Write.{Leads, entry-Leads, entry-store, Leads-leaf}
use re_xvapor.Mm.Vm.Grow.{IsVm, at_NotIn}
use re_xvapor.Mm.Vm.Walk.{Found, leads_to, missing, walk_from-Found, walk_from-Reached}

-- The entry of a virtual address.
abbrev pub lookup : ℕ → Kmem → ℕ → ℕ
lookup pt s va = entry 2 pt va s.mem

unfolding_vpn : (va : ℕ) → vpn 0 va ≡ va / 4096
unfolding vpn
unfolding_vpn va = refl

pub vpn_page : (va : ℕ) → vpn 0 va ≡ va / 4096
vpn_page va = unfolding_vpn va

-- The root's label serves all addresses.
top_label : (va : ℕ) → va < maxva → label 2 va ≡ some (2, 0)
unfolding vpn
top_label va h = let top : va / 2 ^ 39 ≡ 0 = omega arith in ap (λ (n : ℕ). some (2, n)) top

walk-inside :
    (pt va : ℕ) (create : Bool) (s : Kmem)
    → va < maxva
    → walk pt va create s ≡ walk_from 2 pt va create s
unfolding walk
walk-inside pt va create s h = let low : leb maxva va ≡ false = ground arith in rw low refl

-- walk panics exactly on the addresses from MAXVA on, when it does not allocate.
pub walk-panics :
    (pt va : ℕ) (s : Kmem) → maxva ≤ va → (create : Bool) → walk pt va create s ≡ panics
unfolding walk
walk-panics pt va s h create = let high : leb maxva va ≡ true = ground arith in rw high refl

-- Without allocation: the slot of the address, or NULL and the entry is 0; the state stays.
pub walk-Found :
    (pt va : ℕ) (s : Kmem)
    → va < maxva
    → (o : Option ℕ) × (walk pt va false s ≡ returns o s) × Found s.mem 2 pt va o
walk-Found pt va s h =
    let (o, e, f) = walk_from-Found 2 pt va s in (o, walk-inside pt va false s h ∙ e, f)

abbrev pub user_page : ℕ → ℕ
user_page pte = if is_valid pte && is_user pte then pte_to_pa pte else 0

read_page :
    (b : Bool) (x : ℕ) (s : Kmem)
    → (if b then pure x else pure 0) s ≡ returns (if b then x else 0) s
read_page true x s = refl
read_page false x s = refl

walkaddr-Found :
    (pt va : ℕ) (s : Kmem) (o : Option ℕ)
    → leb maxva va ≡ false
    → walk pt va false s ≡ returns o s
    → Found s.mem 2 pt va o
    → walkaddr pt va s ≡ returns (user_page (lookup pt s va)) s
unfolding walkaddr
walkaddr-Found pt va s o low e (leads_to a l) =
    rw (low, e, ◌>>=◌, entry-Leads s.mem 2 pt va a l)
      (read_page (is_valid (s.mem a) && is_user (s.mem a)) (pte_to_pa (s.mem a)) s)
walkaddr-Found pt va s o low e (missing z) = rw (low, e, ◌>>=◌, z) refl

-- walkaddr is the page of the address's entry if the address is below MAXVA and the entry is valid
-- and the user's, else 0. It changes nothing, and never panics.
pub walkaddr_lem :
    (pt va : ℕ) (s : Kmem)
    → walkaddr pt va s ≡ returns (if ltb va maxva then user_page (lookup pt s va) else 0) s
unfolding walkaddr
walkaddr_lem pt va s = elim (Bool-cases (leb maxva va)) [
  | inl high ↦ let out : ltb va maxva ≡ false = ground arith in rw (high, out) refl
  | inr low ↦
      let inside : ltb va maxva ≡ true = ground arith in
      let (o, e, f) = walk-Found pt va s (ground arith) in
      rw inside (walkaddr-Found pt va s o low e f)
]

-- A tree of tables below the root `pt`, in step with the allocator.
pub record IsSpace (kernel_end phystop : ℕ) (s : Kmem) (pt : ℕ) (owner : ℕ → Label) (xs : List ℕ)
    : Type 0 where
  pub vm : IsVm kernel_end phystop s owner xs
  pub root : owner pt ≡ some (2, 0)

module _ (kernel_end phystop : ℕ) (small : phystop ≤ 2 ^ 56) where
  pub root_label :
      (s : Kmem) (pt va : ℕ) (owner : ℕ → Label) (xs : List ℕ)
      → IsSpace kernel_end phystop s pt owner xs
      → va < maxva
      → owner pt ≡ label 2 va
  root_label s pt va owner xs h low = h.root ∙ sym (top_label va low)

  -- A store to the slot of `va` sets the entry of its page and no other.
  pub slot_store :
      (s : Kmem) (pt va a v : ℕ) (owner : ℕ → Label) (xs : List ℕ)
      → IsSpace kernel_end phystop s pt owner xs
      → va < maxva
      → Leads s.mem 2 pt va a
      → let t = record s { mem = update s.mem a v } in
        IsSpace kernel_end phystop t pt owner xs
        × (lookup pt t va ≡ v)
        × ((va' : ℕ) → va' < maxva → vpn 0 va ≢ vpn 0 va' → lookup pt t va' ≡ lookup pt s va')
  slot_store s pt va a v owner xs h low l =
      let mine = root_label s pt va owner xs h low in
      let (q, leaf, here) = Leads-leaf s.mem owner h.vm.table 2 pt va a (omega arith) mine l in
      let (kept, self, other) =
        entry-store s.mem owner 2 pt va a v h.vm.table (omega arith) mine l in
      let away =
        at_NotIn kernel_end phystop small q (px 0 va) _ s.mem owner xs h.vm.table leaf (px-lt 0 va)
          h.vm.free.pages h.vm.apart in
      (
        record {
          vm = record {
            table = kept;
            free = record {
              chain =
                  Chain-update s.mem a v s.freelist xs (subst (λ w. NotIn w xs) (sym here) away)
                    h.vm.free.chain;
              pages = h.vm.free.pages;
              distinct = h.vm.free.distinct;
            };
            apart = h.vm.apart;
          };
          root = h.root;
        },
        self,
        λ va' low' ne. other pt va' (root_label s pt va' owner xs h low') ne,
      )

  -- With allocation: NULL, with no page free, or the slot; every entry stays.
  pub record Walked (s : Kmem) (pt va : ℕ) : Type 0 where
    pub result : Option ℕ
    pub state : Kmem
    pub owner' : ℕ → Label
    pub free : List ℕ
    pub runs : walk pt va true s ≡ returns result state
    pub space : IsSpace kernel_end phystop state pt owner' free
    pub same : (va' : ℕ) → va' < maxva → lookup pt state va' ≡ lookup pt s va'
    pub full : result ≡ none → free ≡ []
    pub leads : (a : ℕ) → result ≡ some a → Leads state.mem 2 pt va a

  pub walk-Walked :
      (s : Kmem) (pt va : ℕ) (owner : ℕ → Label) (xs : List ℕ)
      → IsSpace kernel_end phystop s pt owner xs
      → va < maxva
      → Walked s pt va
  walk-Walked s pt va owner xs h low =
      let mine = root_label s pt va owner xs h low in
      let r =
        walk_from-Reached kernel_end phystop small 2 pt va s owner xs h.vm (omega arith) mine in
      record {
        result = r.result;
        state = r.state;
        owner' = r.owner';
        free = r.free;
        runs = walk-inside pt va true s low ∙ r.runs;
        space = record { vm = r.vm; root = r.grows.labels pt _ h.root };
        same = λ va' low'.
            r.grows.entries 2 pt va' (omega arith) (root_label s pt va' owner xs h low');
        full = r.full;
        leads = r.leads;
      }
