-- ===== src/Fs/Log/Frame.antt =====
-- What a commit (fs/log.c) leaves alone, and what it does to the count of logged blocks.
use re_xvapor.Base.{
  ℕ, zero, suc, ◌+◌, ◌≡◌, refl, ◌∙◌, arith, Bool, true, false, ltb, Bool-cases, inl, inr,
}
use re_xvapor.Fs.Log.{
  Log, install_one, install_from, install_trans, log_one, write_log_from, write_log, write_head,
  commit,
}

outstanding-install_one :
    (i : ℕ) (r : Bool) (s : Log) → (install_one i r s).outstanding ≡ s.outstanding
outstanding-install_one i true s = refl
outstanding-install_one i false s = refl

outstanding-install_from :
    (k i : ℕ) (r : Bool) (s : Log) → (install_from k i r s).outstanding ≡ s.outstanding
unfolding install_from
outstanding-install_from zero i r s = refl
outstanding-install_from (suc k) i r s =
    outstanding-install_from k (i + 1) r (install_one i r s) ∙ outstanding-install_one i r s

outstanding-write_log_from :
    (k i : ℕ) (s : Log) → (write_log_from k i s).outstanding ≡ s.outstanding
unfolding write_log_from
outstanding-write_log_from zero i s = refl
outstanding-write_log_from (suc k) i s = outstanding-write_log_from k (i + 1) (log_one i s)

outstanding-install_trans : (r : Bool) (s : Log) → (install_trans r s).outstanding ≡ s.outstanding
unfolding install_trans
outstanding-install_trans r s = outstanding-install_from s.n 0 r s

outstanding-write_log : (s : Log) → (write_log s).outstanding ≡ s.outstanding
unfolding write_log
outstanding-write_log s = outstanding-write_log_from s.n 0 s

outstanding-write_head : (s : Log) → (write_head s).outstanding ≡ s.outstanding
unfolding write_head
outstanding-write_head s = refl

n-write_head : (s : Log) → (write_head s).n ≡ s.n
unfolding write_head
n-write_head s = refl

-- No operation is lost by a commit.
pub outstanding-commit : (s : Log) → (commit s).outstanding ≡ s.outstanding
unfolding commit
outstanding-commit s =
    let t = write_head (write_log s) in
    let u = record (install_trans false t) { n = 0 } in
    elim (Bool-cases (ltb 0 s.n)) [
      | inl h ↦
          rw (h, commit)
            (outstanding-write_head u
              ∙ (outstanding-install_trans false t
                  ∙ (outstanding-write_head (write_log s) ∙ outstanding-write_log s)))
      | inr h ↦ rw (h, commit) refl
    ]

-- A commit empties the transaction.
pub n-commit : (s : Log) → (commit s).n ≡ 0
unfolding commit
n-commit s =
    let u = record (install_trans false (write_head (write_log s))) { n = 0 } in
    elim (Bool-cases (ltb 0 s.n)) [
      | inl h ↦ rw (h, commit) (n-write_head u)
      | inr h ↦ rw (h, commit) (ground arith)
    ]
