-- ===== src/Abi/Mr/Ends.antt =====
-- Every parser of crates/vmrp-abi/src/mr.rs moves forward in the bytes, so that the recursion of
-- `parse_function` ends.
use vmrp_rust.Prelude.{
  ℕ, zero, suc, ◌+◌, ◌≤◌, ◌<◌, ◌^◌, ◌≡◌, none, some, not, Bool, true, false, length, ltb, ◌==◌,
  if◌then◌else◌, arith, refl,
}
use vmrp_rust.Abi.{Bytes, slice, nth, eq_bytes}
use vmrp_rust.Abi.Outcome
use vmrp_rust.Abi.Outcome.{Outcome, or_panic, Safely, answers, fails, bind-Safely}
use vmrp_rust.Abi.Mrp.Directory.{slice-Safely}
use vmrp_rust.Abi.Mr.{
  String, MrFunction, MrFunctions, MrChunkError, truncated, invalid_signature, Parser, and_then,
  pure, reject_if, is_negative, times, collect, content, ◌>>=◌,
}
use vmrp_rust.Abi.Mr.Cursor.{
  skip, take_raw, expect_bytes, read_u8, word_at, read_u32, read_count, read_content, read_string,
  remaining,
}

-- Somewhere in the bytes four of them are a count of functions that no vector can be allocated for.
pub record CannotAllocate (can_allocate : ℕ → Bool) (bytes : Bytes) : Type 0 where
  pub position : ℕ
  pub little_endian : Bool
  pub inside : position + 4 ≤ length bytes
  pub is_count : word_at bytes little_endian position < 2 ^ 31
  pub not_granted : can_allocate (word_at bytes little_endian position) ≡ false

-- A parser ends with an answer that has a property, with an error, or, for a reason, without an answer.
pub data Ends {E A : Type 0} (Refused : Type 0) (P : A → Type 0) : Outcome E A → Type 0 where
  answered : {a : A} → P a → Ends Refused P (Outcome.ok a)
  failed : {e : E} → Ends Refused P (Outcome.err e)
  refused : Refused → Ends Refused P Outcome.panicked

pub weaken-Ends :
    {E A : Type 0} {R : Type 0} {P Q : A → Type 0} {x : Outcome E A}
    → Ends R P x
    → ((a : A) → P a → Q a)
    → Ends R Q x
weaken-Ends (answered {a} h) f = answered (f a h)
weaken-Ends failed f = failed
weaken-Ends (refused r) f = refused r

safe-Ends : {E A : Type 0} (R : Type 0) {P : A → Type 0} {x : Outcome E A} → Safely P x → Ends R P x
safe-Ends R (answers {a} h) = answered h
safe-Ends R fails = failed

module _ (Refused : Type 0) (bytes : Bytes) where
  -- An answer whose position is `least` bytes on, within the bytes.
  abbrev pub Advanced : {A : Type 0} → ℕ → ℕ → Outcome MrChunkError (A × ℕ) → Type 0
  Advanced pos least x = Ends Refused (λ r. (pos + least ≤ r.1) × (r.1 ≤ length bytes)) x

  -- From every position at or after `lo`, a parser failed or goes `least` bytes on, within the bytes.
  abbrev pub Moves : {A : Type 0} → ℕ → ℕ → Parser A → Type 0
  Moves lo least p = (pos : ℕ) → lo ≤ pos → pos ≤ length bytes → Advanced pos least (p pos)

  and_then-Ends :
      {A B : Type 0} (lo least from : ℕ) (x : Outcome MrChunkError (A × ℕ)) (f : A → Parser B)
      → lo ≤ from
      → Advanced from least x
      → ((a : A) → Moves (lo + least) 0 (f a))
      → Advanced from least (and_then x f)
  and_then-Ends lo least from _ f p failed k = failed
  and_then-Ends lo least from _ f p (refused r) k = refused r
  and_then-Ends lo least from _ f p (answered {a} h) k =
      weaken-Ends (k a.0 a.1 (omega (arith, p, h.0)) h.1) (λ r g. (omega (arith, h.0, g.0), g.1))

  -- A parser and then another, at or after where the first one ends.
  pub bind-Moves :
      {A B : Type 0} (lo least : ℕ) (p : Parser A) (f : A → Parser B)
      → Moves lo least p
      → ((a : A) → Moves (lo + least) 0 (f a))
      → Moves lo least (p >>= f)
  bind-Moves lo least p f h k pos above below =
      and_then-Ends lo least pos (p pos) f above (h pos above below) k

  pub weaken-Moves :
      {A : Type 0} (lo lo' least : ℕ) (p : Parser A) → lo' ≤ lo → Moves lo' least p → Moves lo 0 p
  weaken-Moves lo lo' least p h m pos above below =
      weaken-Ends (m pos (omega (arith, h)) below) (λ r g. (omega (arith, g.0), g.1))

  pub pure-Moves : {A : Type 0} (lo : ℕ) (a : A) → Moves lo 0 (pure a)
  pure-Moves lo a pos above below = answered (omega arith, below)

  pub reject_if-Moves : (lo : ℕ) (t : Bool) → Moves lo 0 (reject_if t)
  reject_if-Moves lo true pos above below = failed
  reject_if-Moves lo false pos above below = answered (omega arith, below)

  pub times-Moves :
      (lo count : ℕ) (body : Parser (Unit {0})) → Moves lo 0 body → Moves lo 0 (times count body)
  times-Moves lo zero body h = pure-Moves lo tt
  times-Moves lo (suc count) body h =
      bind-Moves lo 0 body (λ _. times count body) h
        (λ _.
          weaken-Moves (lo + 0) lo 0 (times count body) (omega arith) (times-Moves lo count body h))

  pub collect-Moves :
      (lo count : ℕ) (body : Parser MrFunction) → Moves lo 0 body → Moves lo 0 (collect count body)
  collect-Moves lo zero body h = pure-Moves lo MrFunctions.nil
  collect-Moves lo (suc count) body h = bind-Moves lo 0 body _ h (λ child.
      bind-Moves (lo + 0) 0 (collect count body) _
        (weaken-Moves (lo + 0) lo 0 (collect count body) (omega arith)
          (collect-Moves lo count body h))
        (λ children. pure-Moves (lo + 0 + 0) (MrFunctions.cons child children)))

  -- A step of known length, under the check of what remains.
  checked-Moves :
      {A : Type 0} (lo least : ℕ) (size : ℕ → ℕ) (value : ℕ → A)
      → ((pos : ℕ) → least ≤ size pos)
      → Moves lo least (λ pos.
        if ltb (remaining bytes pos) (size pos)
        then Outcome.err truncated
        else Outcome.ok (value pos, pos + size pos))
  checked-Moves {A = A} lo least size value h pos above below =
      elim (ltb (remaining bytes pos) (size pos))
          as (λ t.
            ltb (remaining bytes pos) (size pos) ≡ t
            → Advanced {A = A} pos least
                (if t then Outcome.err truncated else Outcome.ok (value pos, pos + size pos))) [
                  | true ↦ λ p. failed
                  | false ↦ λ p. answered (omega (arith, h pos), ground (arith, below))
                ]
        refl

  pub skip-Moves : (lo count : ℕ) → Moves lo count (skip bytes count)
  unfolding skip
  skip-Moves lo count = checked-Moves lo count (λ _. count) (λ _. tt) (λ _. omega arith)

  pub read_u8-Moves : (lo : ℕ) → Moves lo 1 (read_u8 bytes)
  unfolding read_u8
  read_u8-Moves lo = checked-Moves lo 1 (λ _. 1) (nth bytes) (λ _. omega arith)

  take_raw-Moves : (lo count : ℕ) → Moves lo count (take_raw bytes count)
  unfolding take_raw
  take_raw-Moves lo count pos above below =
      elim (ltb (remaining bytes pos) count)
          as (λ t.
            ltb (remaining bytes pos) count ≡ t
            → Advanced {A = Bytes} pos count (
                if t
                then Outcome.err truncated
                else Outcome.◌>>=◌ (or_panic (slice bytes pos (pos + count)))
                    (λ raw. Outcome.ok (raw, pos + count)))) [
                      | true ↦ λ p. failed
                      | false ↦ λ p. safe-Ends Refused (
                          bind-Safely _ _
                            (slice-Safely _ bytes pos (pos + count) (omega arith)
                              (ground (arith, below)))
                            (λ raw _. answers (omega arith, ground (arith, below))))
                    ]
        refl

  pub expect_bytes-Moves :
      (lo : ℕ) (expected : Bytes) → Moves lo (length expected) (expect_bytes bytes expected)
  unfolding expect_bytes
  expect_bytes-Moves lo expected =
      bind-Moves lo (length expected) _ _ (take_raw-Moves lo (length expected))
        (λ raw pos above below.
          elim (eq_bytes raw expected)
            as (λ t.
              Advanced {A = Unit {0}} pos 0
                (if not t then Outcome.err invalid_signature else Outcome.ok (tt, pos))) [
                  | true ↦ answered (omega arith, below)
                  | false ↦ failed
                ])

  module _ (order : Bool) where
    pub read_u32-Moves : (lo : ℕ) → Moves lo 4 (read_u32 bytes order)
    unfolding read_u32
    read_u32-Moves lo = checked-Moves lo 4 (λ _. 4) (word_at bytes order) (λ _. omega arith)

    pub read_count-Moves : (lo : ℕ) → Moves lo 4 (read_count bytes order)
    unfolding read_count
    read_count-Moves lo = bind-Moves lo 4 _ _ (read_u32-Moves lo) (λ v.
        bind-Moves (lo + 4) 0 _ _ (reject_if-Moves (lo + 4) (is_negative v))
          (λ _. pure-Moves (lo + 4 + 0) v))

    -- The count that is read, with the place that it is read from.
    pub read_count-Counts :
        (pos : ℕ)
        → pos ≤ length bytes
        → Ends Refused
            (λ r.
              (r.1 ≡ pos + 4)
              × (pos + 4 ≤ length bytes)
              × (r.0 ≡ word_at bytes order pos)
              × (word_at bytes order pos < 2 ^ 31))
            (read_count bytes order pos)
    unfolding read_count read_u32
    read_count-Counts pos below =
        elim (ltb (remaining bytes pos) 4)
            as (λ t.
              ltb (remaining bytes pos) 4 ≡ t
              → Ends Refused Counts (
                  and_then
                    (if t
                      then Outcome.err truncated
                      else Outcome.ok (word_at bytes order pos, pos + 4))
                    (λ v pos. and_then (reject_if (is_negative v) pos) (λ _. pure v)))) [
                      | true ↦ λ p. failed
                      | false ↦ λ p.
                          elim (is_negative (word_at bytes order pos))
                              as (λ t.
                                is_negative (word_at bytes order pos) ≡ t
                                → Ends Refused Counts (
                                    and_then (reject_if t (pos + 4))
                                      (λ _. pure (word_at bytes order pos)))) [
                                        | true ↦ λ q. failed
                                        | false ↦ λ q. answered (
                                          refl,
                                          ground (arith, p, below),
                                          refl,
                                          ground (arith, q),
                                        )
                                      ]
                            refl
                    ]
          refl
      where
        Counts : ℕ × ℕ → Type 0
        Counts r =
            (r.1 ≡ pos + 4)
            × (pos + 4 ≤ length bytes)
            × (r.0 ≡ word_at bytes order pos)
            × (word_at bytes order pos < 2 ^ 31)

    read_content-Moves :
        (from_utf8_lossy : Bytes → String) (lo size : ℕ)
        → Moves lo 0 (read_content bytes order from_utf8_lossy size)
    read_content-Moves from_utf8_lossy lo size =
        elim (size == 0)
          as (λ t. Moves lo 0 (
            if t
            then pure none
            else take_raw bytes size >>= λ raw. pure (some (from_utf8_lossy (content raw))))) [
              | true ↦ pure-Moves lo none
              | false ↦
                  bind-Moves lo 0 _ _
                    (weaken-Moves lo lo size _ (omega arith) (take_raw-Moves lo size))
                    (λ raw. pure-Moves (lo + 0) (some (from_utf8_lossy (content raw))))
            ]

    pub read_string-Moves :
        (from_utf8_lossy : Bytes → String) (lo : ℕ)
        → Moves lo 4 (read_string bytes order from_utf8_lossy)
    unfolding read_string
    read_string-Moves from_utf8_lossy lo =
        bind-Moves lo 4 _ _ (read_u32-Moves lo) (read_content-Moves from_utf8_lossy (lo + 4))
