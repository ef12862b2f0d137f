-- ===== src/Strings/Compared.antt =====
-- The order that `compare_guest_c_strings` of crates/vmrp-platform/src/lib.rs finds between two strings
-- in the guest's memory.
use vmrp_rust.Prelude.{
  ℕ, zero, suc, ◌+◌, ◌-◌, ◌<◌, ◌^◌, ◌≡◌, ◌≢◌, ◌↔◌, refl, ◌∙◌, Bool, true, false, ◌||◌, ◌&&◌, Option,
  none, some, [], ◌∷◌, length, take, ltb, ◌==◌, if◌then◌else◌, arith, Bool-cases, inl, inr,
}
use vmrp_rust.Prelude.Int.{ℤ, pos, ◌-ℤ◌, ltb_ℤ}
use vmrp_rust.Prelude.Result
use vmrp_rust.Word.{add32}
use vmrp_rust.Abi.{Bytes}
use vmrp_rust.Abi.Outcome.{Outcome, ok, ◌>>=◌}
use vmrp_rust.Cpu.Memory.{MemoryAccessError, MemoryBus}
use vmrp_rust.Strings.{at_limit, of_read, compare_from}

-- The memory holds a string from an offset on: bytes that are not zero, and then a zero.
pub data Holds {M : Type 0} (bus : MemoryBus M) (memory : M) (addr : ℕ) : ℕ → Bytes → Type 0 where
  ends :
      {offset : ℕ}
      → bus.read8 memory (add32 addr offset) ≡ Result.ok 0
      → Holds bus memory addr offset []
  byte :
      {offset : ℕ} (b : ℕ) {s : Bytes}
      → b ≢ 0
      → bus.read8 memory (add32 addr offset) ≡ Result.ok b
      → Holds bus memory addr (suc offset) s
      → Holds bus memory addr offset (b ∷ s)

-- The difference of the first bytes that differ, where a string that ended counts as a zero.
pub difference : Bytes → Bytes → ℤ
difference [] [] = pos 0
difference [] (b ∷ t) = pos 0 -ℤ pos b
difference (a ∷ s) [] = pos a -ℤ pos 0
difference (a ∷ s) (b ∷ t) = if a == b then difference s t else pos a -ℤ pos b

-- A string up to a limit, from an offset on.
abbrev pub taken : Option ℕ → ℕ → Bytes → Bytes
taken none offset s = s
taken (some n) offset s = take (n - offset) s

taken-limit :
    (l : Option ℕ) (offset : ℕ) (s : Bytes) → at_limit l offset ≡ true → taken l offset s ≡ []
taken-limit none offset s p = cc
taken-limit (some n) offset s p = let e : n - offset ≡ 0 = ground arith in rw e refl

taken-byte :
    (l : Option ℕ) (offset b : ℕ) (s : Bytes)
    → at_limit l offset ≡ false
    → taken l offset (b ∷ s) ≡ b ∷ taken l (suc offset) s
taken-byte none offset b s p = refl
taken-byte (some n) offset b s p =
    let e : n - offset ≡ suc (n - suc offset) = ground arith in rw e refl

take-end : (n : ℕ) → take {A = ℕ} n [] ≡ []
take-end zero = refl
take-end (suc n) = refl

taken-end : (l : Option ℕ) (offset : ℕ) → taken l offset [] ≡ []
taken-end none offset = refl
taken-end (some n) offset = take-end (n - offset)

module _ {M : Type 0} ⦃bus : MemoryBus M⦄ (memory : M) (left right : ℕ) (l : Option ℕ) where
  -- A round before the limit.
  round :
      (offset : ℕ) (s t : Bytes) (rest : Outcome MemoryAccessError ℤ)
      → at_limit l offset ≡ false
      → ((u v : Bytes)
          → suc (length u) ≡ length s
          → Holds bus memory left (suc offset) u
          → Holds bus memory right (suc offset) v
          → rest ≡ ok (difference (taken l (suc offset) u) (taken l (suc offset) v)))
      → Holds bus memory left offset s
      → Holds bus memory right offset t
      → (of_read (bus.read8 memory (add32 left offset)) >>= λ a.
          of_read (bus.read8 memory (add32 right offset)) >>= λ b.
          if a == b then (if a == 0 then ok (pos 0) else rest) else ok (pos a -ℤ pos b))
        ≡ ok (difference (taken l offset s) (taken l offset t))
  unfolding difference
  round offset _ _ rest p ih (ends x) (ends y) = rw (x, y, taken-end l offset) refl
  round offset _ _ rest p ih (ends x) (byte b {s = t} hb y _) =
      let ne : (0 == b) ≡ false = ground arith in
      rw (x, y, taken-end l offset, taken-byte l offset b t p, ne) refl
  round offset _ _ rest p ih (byte a {s = s} ha x _) (ends y) =
      let ne : (a == 0) ≡ false = ground arith in
      rw (x, y, taken-end l offset, taken-byte l offset a s p, ne) refl
  round offset _ _ rest p ih (byte a {s = s} ha x hs) (byte b {s = t} hb y ht) =
      let ne : (a == 0) ≡ false = ground arith in
      rw (x, y, taken-byte l offset a s p, taken-byte l offset b t p, ne)
        (elim (a == b)
          as (λ e.
            (if e then rest else ok (pos a -ℤ pos b))
            ≡ ok (
                if e
                then difference (taken l (suc offset) s) (taken l (suc offset) t)
                else pos a -ℤ pos b)) [ true ↦ ih s t refl hs ht | false ↦ refl ])

  pub compare_from-difference :
      (fuel offset : ℕ) (s t : Bytes)
      → length s < fuel
      → offset + length s < 2 ^ 32
      → Holds bus memory left offset s
      → Holds bus memory right offset t
      → compare_from memory left right l fuel offset
        ≡ ok (difference (taken l offset s) (taken l offset t))
  unfolding compare_from difference
  compare_from-difference zero offset s t h k x y = absurd (omega arith)
  compare_from-difference (suc fuel) offset s t h k x y = elim (Bool-cases (at_limit l offset)) [
    | inl p ↦ rw (p, taken-limit l offset s p, taken-limit l offset t p) refl
    | inr p ↦ rw p (
        round offset s t _ p
          (λ u v e hu hv.
            let next : add32 offset 1 ≡ suc offset = omega arith in
            rw next
              (compare_from-difference fuel (suc offset) u v (omega arith) (omega arith) hu hv))
          x y)
  ]

-- A string comes before another in the order of the dictionary.
pub lex_less : Bytes → Bytes → Bool
lex_less [] [] = false
lex_less [] (b ∷ t) = true
lex_less (a ∷ s) [] = false
lex_less (a ∷ s) (b ∷ t) = ltb a b || (a == b && lex_less s t)

-- No byte of the string is zero.
abbrev pub AreNonzero : Bytes → Type 0
AreNonzero [] = Unit {0}
AreNonzero (b ∷ s) = (b ≢ 0) × AreNonzero s

-- An integer tells the order of two strings by its sign.
pub record Tells (s t : Bytes) (d : ℤ) : Type 0 where
  pub equal : (d ≡ pos 0) ↔ (s ≡ t)
  pub less : ltb_ℤ d (pos 0) ≡ lex_less s t

sub-zero : (a b : ℕ) → pos a -ℤ pos b ≡ pos 0 → a ≡ b
sub-zero a b p = ground arith

sub-less : (a b : ℕ) → ltb_ℤ (pos a -ℤ pos b) (pos 0) ≡ ltb a b
sub-less a b = ground arith

-- Two first bytes that differ decide.
differ-Tells : (a b : ℕ) (s t : Bytes) → (a == b) ≡ false → Tells (a ∷ s) (b ∷ t) (pos a -ℤ pos b)
unfolding lex_less
differ-Tells a b s t p = record {
  equal = (λ q. absurd (ground (arith, sub-zero a b q)), λ q. absurd (cc (p, self b, q)));
  less = rw p (sub-less a b ∙ or_false (ltb a b));
}
  where
    self : (n : ℕ) → (n == n) ≡ true
    self n = ground arith

    or_false : (t : Bool) → t ≡ (t || false)
    or_false true = refl
    or_false false = refl

same-Tells : (a b : ℕ) (s t : Bytes) (d : ℤ) → a ≡ b → Tells s t d → Tells (a ∷ s) (b ∷ t) d
unfolding lex_less
same-Tells a b s t d e h = record {
  equal = (λ q. cc (e, h.equal.0 q), λ q. h.equal.1 (cc q));
  less =
      let lt : ltb a b ≡ false = ground arith in
      let eq : (a == b) ≡ true = ground arith in rw (lt, eq) h.less;
}

pub difference-Tells : (s t : Bytes) → AreNonzero s → AreNonzero t → Tells s t (difference s t)
unfolding difference lex_less
difference-Tells [] [] hs ht = record { equal = (λ _. refl, λ _. refl); less = refl }
difference-Tells [] (b ∷ t) hs (hb, ht) = record {
  equal = (λ q. absurd (ground (arith, sub-zero 0 b q)), λ q. cc q);
  less = sub-less 0 b ∙ ground arith;
}
difference-Tells (a ∷ s) [] (ha, hs) ht = record {
  equal = (λ q. absurd (ground (arith, sub-zero a 0 q)), λ q. cc q);
  less = sub-less a 0 ∙ ground arith;
}
difference-Tells (a ∷ s) (b ∷ t) (ha, hs) (hb, ht) =
    elim (a == b)
        as (λ e.
          (a == b) ≡ e → Tells (a ∷ s) (b ∷ t) (if e then difference s t else pos a -ℤ pos b)) [
            | true ↦ λ p.
                same-Tells a b s t (difference s t) (ground (arith, p)) (difference-Tells s t hs ht)
            | false ↦ λ p. differ-Tells a b s t p
          ]
      refl
