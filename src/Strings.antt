-- ===== src/Strings.antt =====
-- crates/vmrp-platform/src/lib.rs: the host's C strings, from the comparison of strings in the guest's
-- memory to the numbers that strtoul and atoi read. A text is its bytes, and those that are read here
-- are ASCII.
pub mod Compared
pub mod Scanned
pub mod Printed
pub mod Order
pub mod Handlers
mod Tests
use vmrp_rust.Prelude.{
  ℕ, zero, suc, ◌+◌, ◌-◌, ◌*◌, ◌%◌, ◌^◌, min, Bool, false, ◌&&◌, ◌||◌, Option, none, some, [], ◌∷◌,
  length, drop, ltb, leb, ◌==◌, if◌then◌else◌,
}
use vmrp_rust.Prelude.Int.{ℤ, pos, ◌-ℤ◌}
use vmrp_rust.Prelude.Result
use vmrp_rust.Prelude.Result.{Result}
use vmrp_rust.Word.{add32}
use vmrp_rust.Abi.{Bytes, nth}
use vmrp_rust.Abi.Outcome.{Outcome, ok, err, panicked, out_of_fuel, ◌>>=◌}
use vmrp_rust.Cpu.Memory.{MemoryAccessError, MemoryBus}

abbrev pub of_read : {A : Type 0} → Result MemoryAccessError A → Outcome MemoryAccessError A
of_read (Result.ok a) = ok a
of_read (Result.err e) = err e

-- `offset >= limit` under a limit.
abbrev pub at_limit : Option ℕ → ℕ → Bool
at_limit none offset = false
at_limit (some limit) offset = leb limit offset

module _ {M : Type 0} ⦃bus : MemoryBus M⦄ (memory : M) where
  -- The loop from an offset on, with fuel for its rounds.
  unfoldable pub compare_from : ℕ → ℕ → Option ℕ → ℕ → ℕ → Outcome MemoryAccessError ℤ
  compare_from left right limit zero offset = out_of_fuel
  compare_from left right limit (suc fuel) offset =
      let rest = compare_from left right limit fuel (add32 offset 1) in
      if at_limit limit offset then ok (pos 0) else do
        a ← of_read (bus.read8 memory (add32 left offset))
        b ← of_read (bus.read8 memory (add32 right offset))
        if a == b then (if a == 0 then ok (pos 0) else rest) else ok (pos a -ℤ pos b)

  unfoldable pub compare_guest_c_strings : ℕ → ℕ → ℕ → Option ℕ → Outcome MemoryAccessError ℤ
  unfolding compare_from
  compare_guest_c_strings fuel left right limit = compare_from left right limit fuel 0

  -- The bytes before a zero, of `left` at most, as `read_guest_c_string` collects them.
  unfoldable pub c_string_bytes : ℕ → ℕ → ℕ → Outcome MemoryAccessError Bytes
  c_string_bytes addr index zero = ok []
  c_string_bytes addr index (suc left) = do
    value ← of_read (bus.read8 memory (add32 addr (index % 2 ^ 32)))
    if value == 0
        then ok []
        else (do bytes ← c_string_bytes addr (suc index) left; ok (value ∷ bytes))

  -- `lossy` is `String::from_utf8_lossy`, on the bytes of the string that it makes.
  unfoldable pub read_guest_c_string : (Bytes → Bytes) → ℕ → ℕ → Outcome MemoryAccessError Bytes
  unfolding c_string_bytes
  read_guest_c_string lossy addr max_len =
      if addr == 0 then ok [] else (do bytes ← c_string_bytes addr 0 max_len; ok (lossy bytes))

-- `char::is_ascii_whitespace` on a byte.
abbrev pub is_ascii_whitespace : ℕ → Bool
is_ascii_whitespace c = (c == 32) || (c == 9) || (c == 10) || (c == 12) || (c == 13)

-- `char::to_digit(base)` of a byte as a character, for a base from 2 to 36; another base panics.
unfoldable pub to_digit : ℕ → ℕ → Option ℕ
to_digit base c =
    let digit =
      if leb b'0' c && leb c b'9'
      then c - b'0'
      else if leb b'a' c && leb c b'z'
      then c - b'a' + 10
      else if leb b'A' c && leb c b'Z'
      then c - b'A' + 10
      else 36 in
    if ltb digit base then some digit else none

abbrev pub at : Bytes → ℕ → ℕ → Bool
at bytes index c = ltb index (length bytes) && nth bytes index == c

-- The index past the white space, from `index` on with the rest of the bytes.
unfoldable pub skip_whitespace : Bytes → ℕ → ℕ
skip_whitespace [] index = index
skip_whitespace (c ∷ rest) index =
    let next = skip_whitespace rest (suc index) in if is_ascii_whitespace c then next else index

-- The base and the index after a prefix, if any.
unfoldable pub actual_base : Bytes → ℕ → ℕ → ℕ × ℕ
actual_base bytes base index =
    let hex = at bytes index b'0' && (at bytes (index + 1) b'x' || at bytes (index + 1) b'X') in
    if base == 0
    then if hex
      then (16, index + 2)
      else if at bytes index b'0'
      then (8, index + 1)
      else (10, index)
    else if (base == 16) && hex
    then (16, index + 2)
    else (base, index)

-- `value.saturating_mul(base).saturating_add(digit)`.
abbrev pub accumulate : ℕ → ℕ → ℕ → ℕ
accumulate value base digit = min (min (value * base) (2 ^ 32 - 1) + digit) (2 ^ 32 - 1)

-- A byte that is no digit ends the number.
abbrev pub scanned : Option ℕ → ℕ × ℕ → (ℕ → ℕ × ℕ) → ℕ × ℕ
scanned none end next = end
scanned (some digit) end next = next digit

-- The digits of the rest of the bytes: the value and the index behind them.
unfoldable pub scan_digits : ℕ → Bytes → ℕ → ℕ → ℕ × ℕ
unfolding to_digit
scan_digits base [] value index = (value, index)
scan_digits base (c ∷ rest) value index =
    scanned (to_digit base c) (value, index)
      (λ digit. scan_digits base rest (accumulate value base digit) (suc index))

-- A base that `to_digit` refuses is a panic once there is a byte to read.
unfoldable pub parse_guest_strtoul : {E : Type 0} → Bytes → ℕ → Outcome E (ℕ × ℕ)
unfolding skip_whitespace actual_base scan_digits to_digit
parse_guest_strtoul bytes base =
    let start = skip_whitespace bytes 0 in
    let sign = at bytes start b'+' || at bytes start b'-' in
    let (used_base, digits_start) = actual_base bytes base (if sign then start + 1 else start) in
    let (value, index) = scan_digits used_base (drop digits_start bytes) 0 digits_start in
    if ltb digits_start (length bytes) && (ltb used_base 2 || ltb 36 used_base)
    then panicked
    else if digits_start == index
    then ok (0, start)
    else ok (value, index)
