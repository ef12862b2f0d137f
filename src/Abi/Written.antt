-- ===== src/Abi/Written.antt =====
-- Bytes that were written at a place of a file (crates/vmrp-abi), and what slices of it give.
use vmrp_rust.Prelude.{
  ℕ, zero, suc, ◌+◌, ◌-◌, ◌/◌, ◌%◌, ◌^◌, ◌<◌, ◌≡◌, ◌∙◌, some, [], ◌∷◌, ◌++◌, false, length, take,
  drop, length-append, ◌||◌, ltb, arith, refl, ap, sym,
}
use vmrp_rust.Cpu.Memory.{from_le_bytes32}
use vmrp_rust.Abi.{Bytes, nth, slice}

-- `value.to_le_bytes()`.
abbrev pub to_le_bytes : ℕ → Bytes
to_le_bytes v = v % 256 ∷ v / 2 ^ 8 % 256 ∷ v / 2 ^ 16 % 256 ∷ v / 2 ^ 24 % 256 ∷ []

-- The bytes from a position on.
abbrev pub From : Bytes → ℕ → Bytes → Type 0
From bytes cursor rest = (drop cursor bytes ≡ rest) × (cursor + length rest ≡ length bytes)

zero_add : (i : ℕ) → i ≡ 0 + i
zero_add i = omega arith

pub add_zero : (i : ℕ) → i ≡ i + 0
add_zero i = omega arith

suc_add : (c i : ℕ) → suc (c + i) ≡ suc c + i
suc_add c i = omega arith

drop-nil : (n : ℕ) → drop {A = ℕ} n [] ≡ []
drop-nil zero = refl
drop-nil (suc n) = refl

pub nth-drop : (bytes : Bytes) (c i : ℕ) → nth (drop c bytes) i ≡ nth bytes (c + i)
nth-drop bytes zero i = ap (λ j. nth bytes j) (zero_add i)
nth-drop [] (suc c) i = refl
nth-drop (b ∷ bs) (suc c) i = nth-drop bs c i ∙ ap (λ j. nth (b ∷ bs) j) (suc_add c i)

pub nth-From :
    (bytes : Bytes) (cursor i : ℕ) (rest : Bytes)
    → From bytes cursor rest
    → nth bytes (cursor + i) ≡ nth rest i
nth-From bytes cursor i rest h = sym (nth-drop bytes cursor i) ∙ ap (λ b. nth b i) h.0

pub drop-drop : (bytes : Bytes) (c n : ℕ) → drop (c + n) bytes ≡ drop n (drop c bytes)
drop-drop bytes zero n = ap (λ j. drop j bytes) (sym (zero_add n))
drop-drop [] (suc c) n = ap (λ j. drop j []) (sym (suc_add c n)) ∙ sym (drop-nil n)
drop-drop (b ∷ bs) (suc c) n = ap (λ j. drop j (b ∷ bs)) (sym (suc_add c n)) ∙ drop-drop bs c n

pub drop-append : (xs ys : Bytes) → drop (length xs) (xs ++ ys) ≡ ys
drop-append [] ys = refl
drop-append (x ∷ xs) ys = drop-append xs ys

pub take-append : (xs ys : Bytes) → take (length xs) (xs ++ ys) ≡ xs
take-append [] ys = refl
take-append (x ∷ xs) ys = ap (λ l. x ∷ l) (take-append xs ys)

pub word :
    (v : ℕ)
    → v < 2 ^ 32
    → from_le_bytes32 (v % 256) (v / 2 ^ 8 % 256) (v / 2 ^ 16 % 256) (v / 2 ^ 24 % 256) ≡ v
word v h = omega (arith, h)

-- The rest of the bytes after some of them.
pub From-append :
    (bytes : Bytes) (cursor : ℕ) (xs ys : Bytes)
    → From bytes cursor (xs ++ ys)
    → From bytes (cursor + length xs) ys
From-append bytes cursor xs ys h = (
  drop-drop bytes cursor (length xs) ∙ ap (λ b. drop (length xs) b) h.0 ∙ drop-append xs ys,
  omega (arith, h.1, length-append xs ys),
)

pub slice-written :
    (bytes : Bytes) (cursor end : ℕ) (xs rest : Bytes)
    → From bytes cursor (xs ++ rest)
    → end ≡ cursor + length xs
    → slice bytes cursor end ≡ some xs
unfolding slice
slice-written bytes cursor end xs rest h p = rw (inside) (
    ap some (
      ap (λ n. take n (drop cursor bytes)) width
      ∙ ap (λ b. take (length xs) b) h.0
      ∙ take-append xs rest))
  where
    inside : (ltb end cursor || ltb (length bytes) end) ≡ false
    inside = ground (arith, h.1, p, length-append xs rest)

    width : end - cursor ≡ length xs
    width = omega (arith, p)

module _ (bytes : Bytes) where
  pub moved : (p q : ℕ) (rest : Bytes) → From bytes p rest → p ≡ q → From bytes q rest
  moved p q rest h e = coe 0 1 (k. From bytes (e k) rest) h
