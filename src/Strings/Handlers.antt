-- ===== src/Strings/Handlers.antt =====
-- crates/vmrp-platform/src/lib.rs: the handlers of strcmp, strncmp, strcoll, strtoul and atoi, and the
-- number that atoi reads.
use vmrp_rust.Prelude.{
  ℕ, suc, ◌+◌, ◌-◌, ◌*◌, ◌%◌, ◌^◌, ◌&&◌, ◌||◌, none, some, [], ◌∷◌, take, leb, ◌==◌, ◌!=◌,
  if◌then◌else◌,
}
use vmrp_rust.Prelude.Int.{ℤ, pos, negsuc, ◌-ℤ◌, fits_i32}
use vmrp_rust.Prelude.Result.{Result}
use vmrp_rust.Prelude.State.{Stateful, pure, modify, gets, ◌>>=◌, ◌>>◌}
use vmrp_rust.Word.{add32}
use vmrp_rust.Abi.{Bytes}
use vmrp_rust.Abi.Outcome.{Outcome, ok, err, panicked, out_of_fuel}
use vmrp_rust.Cpu.Memory.{MemoryAccessError, MemoryBus}
use vmrp_rust.Allocator.Ext.{Host}
use vmrp_rust.Allocator.Ext.Handlers.{put, return_to_lr}
use vmrp_rust.Strings.{compare_guest_c_strings, read_guest_c_string, parse_guest_strtoul}

-- What ends a service without an answer.
pub data Failure : Type 0 where
  unreadable : MemoryAccessError → Failure
  panic : Failure
  stuck : Failure

-- `str::trim_start` on ASCII.
unfoldable pub trim_start : Bytes → Bytes
trim_start [] = []
trim_start (c ∷ rest) = if (leb 9 c && leb c 13) || (c == 32) then trim_start rest else c ∷ rest

-- The end of the sign and the digits, from an index on.
unfoldable pub number_end : Bytes → ℕ → ℕ → ℕ
number_end [] index end = end
number_end (c ∷ rest) index end =
    let next = number_end rest (suc index) (suc index) in
    if (index == 0) && ((c == b'+') || (c == b'-'))
    then next
    else if leb b'0' c && leb c b'9'
    then next
    else end

-- The value of digits behind `n`.
unfoldable pub digits_value : ℕ → Bytes → ℕ
digits_value n [] = n
digits_value n (c ∷ rest) = digits_value (n * 10 + (c - b'0')) rest

abbrev pub in_i32 : ℤ → ℤ
in_i32 z = if fits_i32 z then z else pos 0

-- `parse::<i32>().unwrap_or(0)` on a sign and digits, or on no byte at all.
unfoldable pub parse_or_zero : Bytes → ℤ
unfolding digits_value
parse_or_zero [] = pos 0
parse_or_zero (c ∷ rest) =
    if c == b'+'
    then in_i32 (pos (digits_value 0 rest))
    else if c == b'-'
    then in_i32 (pos 0 -ℤ pos (digits_value 0 rest))
    else in_i32 (pos (digits_value 0 (c ∷ rest)))

unfoldable pub parse_guest_i32 : Bytes → ℤ
unfolding trim_start number_end parse_or_zero
parse_guest_i32 raw =
    let trimmed = trim_start raw in parse_or_zero (take (number_end trimmed 0 0) trimmed)

-- `value as u32` on i32.
abbrev pub as_u32 : ℤ → ℕ
as_u32 (pos n) = n % 2 ^ 32
as_u32 (negsuc n) = 2 ^ 32 - 1 - n % 2 ^ 32

abbrev pub Service : Type 0 → Type 0 → Type 0
Service M A = Stateful (Host M) Failure A

module _ {M : Type 0} ⦃bus : MemoryBus M⦄ where
  abbrev pub arg : ℕ → Service M ℕ
  arg index = gets (λ h. h.regs.regs index)

  abbrev pub of_outcome : {A : Type 0} → Outcome MemoryAccessError A → Service M A
  of_outcome (ok a) h = (Result.ok a, h)
  of_outcome (err e) h = (Result.err (unreadable e), h)
  of_outcome panicked h = (Result.err panic, h)
  of_outcome out_of_fuel h = (Result.err stuck, h)

  abbrev pub on_memory : {A : Type 0} → (M → Outcome MemoryAccessError A) → Service M A
  on_memory f h = of_outcome (f h.memory) h

  unfoldable pub return_with : ℕ → Service M (Unit {0})
  unfolding return_to_lr
  return_with out = modify (λ h. return_to_lr (record h { regs = put 0 out h.regs }))

  abbrev pub of_write :
      Host M → Result MemoryAccessError (Unit {0}) × M → Result Failure (Unit {0}) × Host M
  of_write h (Result.ok tt, m) = (Result.ok tt, record h { memory = m })
  of_write h (Result.err e, m) = (Result.err (unreadable e), record h { memory = m })

  -- `fuel` bounds the rounds of the comparison.
  unfoldable pub handle_strcmp : ℕ → Service M (Unit {0})
  unfolding return_with compare_guest_c_strings
  handle_strcmp fuel = do
    left ← arg 0
    right ← arg 1
    ret ← on_memory (λ memory. compare_guest_c_strings memory fuel left right none)
    return_with (as_u32 ret)

  unfoldable pub handle_strncmp : ℕ → Service M (Unit {0})
  unfolding return_with compare_guest_c_strings
  handle_strncmp fuel = do
    left ← arg 0
    right ← arg 1
    limit ← arg 2
    ret ← on_memory (λ memory. compare_guest_c_strings memory fuel left right (some limit))
    return_with (as_u32 ret)

  unfoldable pub handle_strcoll : ℕ → Service M (Unit {0})
  unfolding handle_strcmp
  handle_strcoll fuel = handle_strcmp fuel

  unfoldable pub handle_atoi : (Bytes → Bytes) → Service M (Unit {0})
  unfolding return_with read_guest_c_string parse_guest_i32
  handle_atoi lossy = do
    addr ← arg 0
    raw ← on_memory (λ memory. read_guest_c_string memory lossy addr 256)
    return_with (as_u32 (parse_guest_i32 raw))

  unfoldable pub handle_strtoul : (Bytes → Bytes) → Service M (Unit {0})
  unfolding return_with read_guest_c_string parse_guest_strtoul
  handle_strtoul lossy = do
    nptr ← arg 0
    endptr ← arg 1
    base ← arg 2
    raw ← on_memory (λ memory. read_guest_c_string memory lossy nptr 256)
    parsed ← on_memory (λ _. parse_guest_strtoul raw base)
    if endptr != 0
        then (λ h. of_write h (bus.write32 h.memory endptr (add32 nptr (parsed.1 % 2 ^ 32))))
        else pure tt
    return_with (parsed.0)
