-- ===== src/Abi/Mr/Written.antt =====
-- What the cursor of crates/vmrp-abi/src/mr.rs reads where bytes were written.
use vmrp_rust.Prelude.{
  ℕ, Bool, ◌+◌, ◌/◌, ◌%◌, ◌^◌, ◌<◌, ◌≡◌, ◌∙◌, [], ◌∷◌, ◌++◌, true, false, length, length-append,
  ltb, arith, refl, ap, sym,
}
use vmrp_rust.Abi.{Bytes, nth, le_u32}
use vmrp_rust.Abi.Outcome
use vmrp_rust.Abi.Outcome.{Outcome, or_panic}
use vmrp_rust.Abi.Written.{to_le_bytes, From, nth-From, word, From-append, slice-written, add_zero}
use vmrp_rust.Abi.Mr.{Parser, and_then, pure, reject_if, is_negative, ◌>>=◌}
use vmrp_rust.Abi.Mr.Cursor.{skip, take_raw, read_u8, read_u32, read_count, remaining, word_at}

pub append_assoc : (xs ys zs : Bytes) → (xs ++ ys) ++ zs ≡ xs ++ (ys ++ zs)
append_assoc [] ys zs = refl
append_assoc (x ∷ xs) ys zs = ap (λ l. x ∷ l) (append_assoc xs ys zs)

-- `value.to_le_bytes()` or `value.to_be_bytes()`.
abbrev pub to_bytes : Bool → ℕ → Bytes
to_bytes true v = to_le_bytes v
to_bytes false v = v / 2 ^ 24 % 256 ∷ v / 2 ^ 16 % 256 ∷ v / 2 ^ 8 % 256 ∷ v % 256 ∷ []

module _ (bytes : Bytes) where
  -- Wherever the text is written, the parser reads the value and ends behind the text.
  abbrev pub Reads : {A : Type 0} → Parser A → Bytes → A → Type 0
  Reads p text a =
      (pos : ℕ) (rest : Bytes)
      → From bytes pos (text ++ rest)
      → p pos ≡ Outcome.ok (a, pos + length text)

  pub bind-Reads :
      {A B : Type 0} (p : Parser A) (f : A → Parser B) (first second : Bytes) (a : A) (b : B)
      → Reads p first a
      → Reads (f a) second b
      → Reads (p >>= f) (first ++ second) b
  bind-Reads p f first second a b h k pos rest at =
      let there : From bytes pos (first ++ (second ++ rest)) =
        coe 0 1 (i. From bytes pos (append_assoc first second rest i)) at in
      ap (λ x. and_then x f) (h pos (second ++ rest) there)
      ∙ k (pos + length first) rest (From-append bytes pos first (second ++ rest) there)
      ∙ ap (λ n. Outcome.ok (b, n)) (ends pos)
    where
      ends : (pos : ℕ) → pos + length first + length second ≡ pos + length (first ++ second)
      ends pos = omega (arith, length-append first second)

  pub pure-Reads : {A : Type 0} (a : A) → Reads (pure a) [] a
  pure-Reads a pos rest at = ap (λ n. Outcome.ok (a, n)) (add_zero pos)

  pub skip-Reads :
      (text : Bytes) (count : ℕ) → length text ≡ count → Reads (skip bytes count) text tt
  unfolding skip
  skip-Reads text count p pos rest at = rw (inside) (ap (λ n. Outcome.ok (tt, pos + n)) (sym p))
    where
      inside : ltb (remaining bytes pos) count ≡ false
      inside = ground (arith, at.1, p, length-append text rest)

  pub read_u8-Reads : (b : ℕ) → Reads (read_u8 bytes) (b ∷ []) b
  unfolding read_u8
  read_u8-Reads b pos rest at = rw (inside) (ap (λ v. Outcome.ok (v, pos + 1)) first)
    where
      inside : ltb (remaining bytes pos) 1 ≡ false
      inside = ground (arith, at.1)

      first : nth bytes pos ≡ b
      first = ap (λ j. nth bytes j) (add_zero pos) ∙ nth-From bytes pos 0 _ at

  pub take_raw-Reads : (text : Bytes) → Reads (take_raw bytes (length text)) text text
  unfolding take_raw
  take_raw-Reads text pos rest at = rw (inside) (
      ap (λ x. Outcome.◌>>=◌ (or_panic x) (λ raw. Outcome.ok (raw, pos + length text)))
        (slice-written bytes pos (pos + length text) text rest at refl))
    where
      inside : ltb (remaining bytes pos) (length text) ≡ false
      inside = ground (arith, at.1, length-append text rest)

  pub read_u32-Reads :
      (order : Bool) (v : ℕ) → v < 2 ^ 32 → Reads (read_u32 bytes order) (to_bytes order v) v
  unfolding read_u32
  read_u32-Reads true v small pos rest at = rw (inside) (ap (λ v. Outcome.ok (v, pos + 4)) value)
    where
      inside : ltb (remaining bytes pos) 4 ≡ false
      inside = ground (arith, at.1)

      first : nth bytes pos ≡ v % 256
      first = ap (λ j. nth bytes j) (add_zero pos) ∙ nth-From bytes pos 0 _ at

      value : le_u32 bytes pos ≡ v
      value =
          rw
            (first, nth-From bytes pos 1 _ at, nth-From bytes pos 2 _ at, nth-From bytes pos 3 _ at)
            (word v small)
  read_u32-Reads false v small pos rest at = rw (inside) (ap (λ v. Outcome.ok (v, pos + 4)) value)
    where
      inside : ltb (remaining bytes pos) 4 ≡ false
      inside = ground (arith, at.1)

      first : nth bytes pos ≡ v / 2 ^ 24 % 256
      first = ap (λ j. nth bytes j) (add_zero pos) ∙ nth-From bytes pos 0 _ at

      value : word_at bytes false pos ≡ v
      value =
          rw
            (nth-From bytes pos 3 _ at, nth-From bytes pos 2 _ at, nth-From bytes pos 1 _ at, first)
            (word v small)

  pub read_count-Reads :
      (order : Bool) (v : ℕ) → v < 2 ^ 31 → Reads (read_count bytes order) (to_bytes order v) v
  unfolding read_count
  read_count-Reads order v small pos rest at =
      ap (λ x. and_then x (λ v. reject_if (is_negative v) >>= λ _. pure v))
        (read_u32-Reads order v (omega (arith, small)) pos rest at)
      ∙ ap (λ t. and_then (reject_if t (pos + length (to_bytes order v))) (λ _. pure v)) positive
    where
      positive : is_negative v ≡ false
      positive = ground (arith, small)
