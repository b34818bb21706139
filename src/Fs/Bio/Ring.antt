-- ===== src/Fs/Bio/Ring.antt =====
-- The doubly linked list of the buffer cache (fs/bio.c) as a list of buffers.
use re_xvapor.Base.{
  ℕ, ◌≡◌, ◌≢◌, refl, sym, ◌∙◌, subst, List, [], ◌∷◌, ◌++◌, update, update_eq, update_self,
  update_ne, NotIn, NotIn-append_left, NotIn-append_right, NotIn-without, Distinct, Distinct-middle,
}
use re_xvapor.Fs.Bio.{Links, push_front, unlink}

-- From `a` the links lead through `bs` to `z`, and back.
abbrev pub Linked : (ℕ → ℕ) → (ℕ → ℕ) → ℕ → List ℕ → ℕ → Type 0
Linked next prev a [] z = (next a ≡ z) × (prev z ≡ a)
Linked next prev a (b ∷ bs) z = (next a ≡ b) × (prev b ≡ a) × Linked next prev b bs z

-- The list of the cache, from the head round to the head.
pub record IsRing (l : Links) (bs : List ℕ) : Type 0 where
  pub linked : Linked l.next l.prev 0 bs 0
  pub distinct : Distinct bs
  pub no_head : NotIn 0 bs

Linked-next :
    (next prev : ℕ → ℕ) (p v a : ℕ) (bs : List ℕ) (z : ℕ)
    → p ≢ a
    → NotIn p bs
    → Linked next prev a bs z
    → Linked (update next p v) prev a bs z
Linked-next next prev p v a [] z ne out h = (update_ne next p a v ne ∙ h.0, h.1)
Linked-next next prev p v a (b ∷ bs) z ne out h =
    (update_ne next p a v ne ∙ h.0, h.1, Linked-next next prev p v b bs z out.0 out.1 h.2)

Linked-prev :
    (next prev : ℕ → ℕ) (p v a : ℕ) (bs : List ℕ) (z : ℕ)
    → p ≢ z
    → NotIn p bs
    → Linked next prev a bs z
    → Linked next (update prev p v) a bs z
Linked-prev next prev p v a [] z ne out h = (h.0, update_ne prev p z v ne ∙ h.1)
Linked-prev next prev p v a (b ∷ bs) z ne out h =
    (h.0, update_ne prev p b v out.0 ∙ h.1, Linked-prev next prev p v b bs z ne out.1 h.2)

-- push_front, its first store read through.
pushed :
    (b : ℕ) (l : Links)
    → b ≢ 0
    → push_front b l ≡ (record {
      next = update (update l.next b (l.next 0)) 0 b;
      prev = update (update l.prev b 0) (l.next 0) b;
    })
unfolding push_front
pushed b l ne = rw (update_ne l.next b 0 (l.next 0) ne) refl

-- `b` between the head and what the head led to.
pushed_before :
    (b c : ℕ) (next prev : ℕ → ℕ) (cs : List ℕ)
    → b ≢ 0
    → NotIn b (c ∷ cs)
    → Distinct (c ∷ cs)
    → NotIn 0 (c ∷ cs)
    → Linked next prev c cs 0
    → Linked (update (update next b c) 0 b) (update (update prev b 0) c b) 0 (b ∷ c ∷ cs) 0
pushed_before b c next prev cs ne out d z rest = (
  update_self (update next b c) 0 b,
  update_ne (update prev b 0) c b b (λ e. out.0 (sym e)) ∙ update_self prev b 0,
  (
    update_ne (update next b c) 0 b b (λ e. ne (sym e)) ∙ update_self next b c,
    update_self (update prev b 0) c b,
    Linked-prev _ _ c b c cs 0 (λ e. z.0 (sym e)) d.0
        (Linked-prev _ _ b 0 c cs 0 ne out.1
          (Linked-next _ _ 0 b c cs 0 z.0 z.1 (Linked-next _ _ b c c cs 0 out.0 out.1 rest))),
  ),
)

push_front-Linked :
    (b : ℕ) (l : Links) (bs : List ℕ)
    → b ≢ 0
    → NotIn b bs
    → Distinct bs
    → NotIn 0 bs
    → Linked l.next l.prev 0 bs 0
    → Linked
        (update (update l.next b (l.next 0)) 0 b)
        (update (update l.prev b 0) (l.next 0) b)
        0
        (b ∷ bs)
        0
push_front-Linked b l [] ne out d z h =
    subst
      (λ f. Linked (update (update l.next b f) 0 b) (update (update l.prev b 0) f b) 0 (b ∷ []) 0)
      (sym h.0)
      (
        update_self (update l.next b 0) 0 b,
        update_ne (update l.prev b 0) 0 b b (λ e. ne (sym e)) ∙ update_self l.prev b 0,
        (
          update_ne (update l.next b 0) 0 b b (λ e. ne (sym e)) ∙ update_self l.next b 0,
          update_self (update l.prev b 0) 0 b,
        ),
      )
push_front-Linked b l (c ∷ cs) ne out d z h =
    subst
      (λ f.
        Linked (update (update l.next b f) 0 b) (update (update l.prev b 0) f b) 0 (b ∷ c ∷ cs) 0)
      (sym h.0) (pushed_before b c l.next l.prev cs ne out d z h.2)

-- push_front puts a buffer that is not in the list at its front.
pub push_front-IsRing :
    (b : ℕ) (l : Links) (bs : List ℕ)
    → b ≢ 0
    → NotIn b bs
    → IsRing l bs
    → IsRing (push_front b l) (b ∷ bs)
push_front-IsRing b l bs ne out h = rw (pushed b l ne) (record {
  linked = push_front-Linked b l bs ne out h.distinct h.no_head h.linked;
  distinct = (out, h.distinct);
  no_head = ((λ e. ne (sym e)), h.no_head);
})

-- What stands before and behind a buffer of the list is no buffer elsewhere in it.
before_ne :
    (next prev : ℕ → ℕ) (a b z q : ℕ) (xs ys : List ℕ)
    → Linked next prev a (xs ++ b ∷ ys) z
    → q ≢ a
    → NotIn q xs
    → q ≢ prev b
before_ne next prev a b z q [] ys h ne out = λ e. ne (e ∙ h.1)
before_ne next prev a b z q (x ∷ xs) ys h ne out = before_ne next prev x b z q xs ys h.2 out.0 out.1

behind_ne :
    (next prev : ℕ → ℕ) (a b z q : ℕ) (xs ys : List ℕ)
    → Linked next prev a (xs ++ b ∷ ys) z
    → q ≢ z
    → NotIn q ys
    → q ≢ next b
behind_ne next prev a b z q [] [] h ne out = λ e. ne (e ∙ h.2.0)
behind_ne next prev a b z q [] (y ∷ ys) h ne out = λ e. out.0 (e ∙ h.2.0)
behind_ne next prev a b z q (x ∷ xs) ys h ne out = behind_ne next prev x b z q xs ys h.2 ne out

-- `b` taken out from between `a` and `f`.
bridged :
    (a b f z : ℕ) (next prev : ℕ → ℕ) (ys : List ℕ)
    → next b ≡ f
    → Distinct (a ∷ ys)
    → NotIn z ys
    → Linked next prev b ys z
    → Linked (update next a f) (update prev f a) a ys z
bridged a b f z next prev [] e d out h =
    (update_self next a f ∙ (sym e ∙ h.0), update_eq prev f z a (sym e ∙ h.0))
bridged a b f z next prev (y ∷ ys) e d out h =
    let here : f ≡ y = sym e ∙ h.0 in
    (
      update_self next a f ∙ here,
      update_eq prev f y a here,
      Linked-next _ _ a f y ys z d.0.0 d.0.1 (
          Linked-prev _ _ f a y ys z (λ q. out.0 (sym q ∙ here))
            (subst (λ g. NotIn g ys) (sym here) d.1.0) h.2),
    )

unlink-Linked :
    (next prev : ℕ → ℕ) (a b z : ℕ) (xs ys : List ℕ)
    → Distinct (a ∷ xs ++ b ∷ ys)
    → NotIn z (xs ++ b ∷ ys)
    → Linked next prev a (xs ++ b ∷ ys) z
    → Linked (update next (prev b) (next b)) (update prev (next b) (prev b)) a (xs ++ ys) z
unlink-Linked next prev a b z [] ys d out h =
    rw h.1 (bridged a b (next b) z next prev ys refl (d.0.1, d.1.1) out.1 h.2)
unlink-Linked next prev a b z (x ∷ xs) ys d out h =
    let apart : a ≢ prev b =
      before_ne next prev x b z a xs ys h.2 d.0.0 (NotIn-append_left a xs (b ∷ ys) d.0.1) in
    let apart' : x ≢ next b =
      behind_ne next prev x b z x xs ys h.2 (λ e. out.0 (sym e))
        (NotIn-append_right x xs (b ∷ ys) d.1.0).1 in
    (
      update_ne next (prev b) a (next b) (λ e. apart (sym e)) ∙ h.0,
      update_ne prev (next b) x (prev b) (λ e. apart' (sym e)) ∙ h.1,
      unlink-Linked next prev x b z xs ys d.1 out.1 h.2,
    )

unlinked :
    (b : ℕ) (l : Links)
    → b ≢ l.next b
    → unlink b l ≡ (record {
      next = update l.next (l.prev b) (l.next b);
      prev = update l.prev (l.next b) (l.prev b);
    })
unfolding unlink
unlinked b l ne = rw (update_ne l.prev (l.next b) b (l.prev b) (λ e. ne (sym e))) refl

-- unlink takes a buffer out of the list.
pub unlink-IsRing :
    (b : ℕ) (l : Links) (xs ys : List ℕ) → IsRing l (xs ++ b ∷ ys) → IsRing (unlink b l) (xs ++ ys)
unlink-IsRing b l xs ys h =
    let (distinct, fresh) = Distinct-middle b xs ys h.distinct in
    let not_head : 0 ≢ b = (NotIn-append_right 0 xs (b ∷ ys) h.no_head).0 in
    let ne : b ≢ l.next b =
      behind_ne l.next l.prev 0 b 0 b xs ys h.linked (λ e. not_head (sym e))
        (NotIn-append_right b xs ys fresh) in
    rw (unlinked b l ne) (record {
      linked = unlink-Linked l.next l.prev 0 b 0 xs ys (h.no_head, h.distinct) h.no_head h.linked;
      distinct = distinct;
      no_head = NotIn-without 0 b xs ys h.no_head;
    })
