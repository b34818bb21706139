-- ===== src/Fs/Xv6/Words.antt =====
-- The fields of uint and short in a block of fs/xv6fs.c: what is stored is read back.
use re_xvapor.Base.{
  ℕ, ◌+◌, ◌/◌, ◌%◌, ◌^◌, ◌≤◌, ◌<◌, ◌≡◌, ◌≢◌, refl, ◌∙◌, update, update_self, update_ne, arith, ◌⊎◌,
  inl, inr,
}
use re_xvapor.Fs.Xv6.{Block, word_at, half_at, set_word, set_half}

-- The bytes of a stored word.
module _ (a w : ℕ) (d : Block) where
  abbrev one : Block
  one = update d a (w % 256)

  abbrev two : Block
  two = update one (a + 1) (w / 256 % 256)

  abbrev three : Block
  three = update two (a + 2) (w / 2 ^ 16 % 256)

  byte_0 : set_word a w d a ≡ w % 256
  byte_0 =
      update_ne three (a + 3) a _ (omega arith)
      ∙ (update_ne two (a + 2) a _ (omega arith)
          ∙ (update_ne one (a + 1) a _ (omega arith) ∙ update_self d a _))

  byte_1 : set_word a w d (a + 1) ≡ w / 256 % 256
  byte_1 =
      update_ne three (a + 3) (a + 1) _ (omega arith)
      ∙ (update_ne two (a + 2) (a + 1) _ (omega arith) ∙ update_self one (a + 1) _)

  byte_2 : set_word a w d (a + 2) ≡ w / 2 ^ 16 % 256
  byte_2 = update_ne three (a + 3) (a + 2) _ (omega arith) ∙ update_self two (a + 2) _

  byte_3 : set_word a w d (a + 3) ≡ w / 2 ^ 24 % 256
  byte_3 = update_self three (a + 3) _

  pub set_word_else : (x : ℕ) → x < a ⊎ a + 4 ≤ x → set_word a w d x ≡ d x
  set_word_else x away =
      update_ne three (a + 3) x _ (apart 3 away (omega arith))
      ∙ (update_ne two (a + 2) x _ (apart 2 away (omega arith))
          ∙ (update_ne one (a + 1) x _ (apart 1 away (omega arith))
              ∙ update_ne d a x _ (λ e. apart 0 away (omega arith) (omega (arith, e)))))
    where
      apart : (i : ℕ) → x < a ⊎ a + 4 ≤ x → i < 4 → a + i ≢ x
      apart i (inl lo) h e = omega arith
      apart i (inr hi) h e = omega arith

  -- The word is read back.
  pub word_at-set_word : w < 2 ^ 32 → word_at (set_word a w d) a ≡ w
  word_at-set_word fits = rw (byte_0, byte_1, byte_2, byte_3) (omega arith)

  -- A word elsewhere is as it was.
  pub word_at-set_word_else :
      (b : ℕ) → b + 4 ≤ a ⊎ a + 4 ≤ b → word_at (set_word a w d) b ≡ word_at d b
  word_at-set_word_else b away =
      let near = λ (x : ℕ) (lo : b ≤ x) (hi : x < b + 4). set_word_else x (side x lo hi away) in
      rw
        (
          near b (omega arith) (omega arith),
          near (b + 1) (omega arith) (omega arith),
          near (b + 2) (omega arith) (omega arith),
          near (b + 3) (omega arith) (omega arith),
        )
        refl
    where
      side : (x : ℕ) → b ≤ x → x < b + 4 → b + 4 ≤ a ⊎ a + 4 ≤ b → x < a ⊎ a + 4 ≤ x
      side x lo hi (inl left) = inl (omega arith)
      side x lo hi (inr right) = inr (omega arith)

  pub half_at-set_word_else : (b : ℕ) → b + 2 ≤ a → half_at (set_word a w d) b ≡ half_at d b
  half_at-set_word_else b lo =
      rw (set_word_else b (inl (omega arith)), set_word_else (b + 1) (inl (omega arith))) refl

module _ (a w : ℕ) (d : Block) where
  pub half_at-set_half : w < 2 ^ 16 → half_at (set_half a w d) a ≡ w
  half_at-set_half fits =
      let low : set_half a w d a ≡ w % 256 =
        update_ne (update d a (w % 256)) (a + 1) a _ (omega arith) ∙ update_self d a _ in
      rw (low, update_self (update d a (w % 256)) (a + 1) (w / 256 % 256)) (omega arith)

  pub set_half_else : (x : ℕ) → a ≢ x → a + 1 ≢ x → set_half a w d x ≡ d x
  set_half_else x ne ne' = update_ne (update d a (w % 256)) (a + 1) x _ ne' ∙ update_ne d a x _ ne

  pub half_at-set_half_else : (b : ℕ) → b + 2 ≤ a → half_at (set_half a w d) b ≡ half_at d b
  half_at-set_half_else b lo =
      rw
        (
          set_half_else b (omega arith) (omega arith),
          set_half_else (b + 1) (omega arith) (omega arith),
        )
        refl
