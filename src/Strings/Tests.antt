-- ===== src/Strings/Tests.antt =====
-- Strings and numbers in a concrete memory, and the theorems at concrete inputs.
use vmrp_rust.Prelude.{◌≡◌, refl, inr, none, some, [], ◌∷◌, map, arith}
use vmrp_rust.Prelude.Int.{negsuc}
use vmrp_rust.Abi.{nth}
use vmrp_rust.Abi.Outcome.{ok, panicked}
use vmrp_rust.Cpu.Memory.{TestMemory, MemoryAccessError, test_memory_bus, read8, offset_for}
use vmrp_rust.Strings.{compare_guest_c_strings, parse_guest_strtoul}
use vmrp_rust.Strings.Compared.{Holds, ends, byte}
use vmrp_rust.Strings.Handlers.{parse_guest_i32}
use vmrp_rust.Strings.Order.{Orders, compare_guest_c_strings-Orders}
use vmrp_rust.Strings.Printed.{digit_char, parse_guest_strtoul-digits}
use vmrp_rust.Strings.Scanned.{Parsed, parse_guest_strtoul-Parsed}

-- "ab" at 0x100 and "ac" at 0x103.
abbrev memory : TestMemory
memory = record { base = 0x100; len = 6; byte = nth (97 ∷ 98 ∷ 0 ∷ 97 ∷ 99 ∷ 0 ∷ []) }

compare-memory : compare_guest_c_strings memory 3 0x100 0x103 none ≡ ok (negsuc 0)
unfolding compare_guest_c_strings read8 offset_for
compare-memory = refl

-- " -0x1f": the sign is not applied.
strtoul-hex :
    parse_guest_strtoul {E = MemoryAccessError} (32 ∷ 45 ∷ 48 ∷ 120 ∷ 49 ∷ 102 ∷ []) 0 ≡ ok (31, 6)
unfolding parse_guest_strtoul
strtoul-hex = refl

-- A base past 36 panics.
strtoul-base_37 : parse_guest_strtoul {E = MemoryAccessError} (49 ∷ []) 37 ≡ panicked
unfolding parse_guest_strtoul
strtoul-base_37 = refl

atoi-sign : parse_guest_i32 (32 ∷ 45 ∷ 49 ∷ 50 ∷ 97 ∷ []) ≡ negsuc 11
unfolding parse_guest_i32
atoi-sign = refl

first_string : Holds test_memory_bus memory 0x100 0 (97 ∷ 98 ∷ [])
unfolding read8 offset_for
first_string = byte 97 (ground arith) refl (byte 98 (ground arith) refl (ends refl))

second_string : Holds test_memory_bus memory 0x103 0 (97 ∷ 99 ∷ [])
unfolding read8 offset_for
second_string = byte 97 (ground arith) refl (byte 99 (ground arith) refl (ends refl))

compare_guest_c_strings-Orders_example :
    Orders (97 ∷ []) (97 ∷ []) (compare_guest_c_strings memory 3 0x100 0x103 (some 1))
compare_guest_c_strings-Orders_example =
    compare_guest_c_strings-Orders memory 3 0x100 0x103 (some 1) (97 ∷ 98 ∷ []) (97 ∷ 99 ∷ [])
      (omega arith) (omega arith) first_string second_string

parse_guest_strtoul-Parsed_example :
    Parsed 4 (parse_guest_strtoul {E = MemoryAccessError} (32 ∷ 45 ∷ 49 ∷ 50 ∷ []) 16)
parse_guest_strtoul-Parsed_example =
    parse_guest_strtoul-Parsed {E = MemoryAccessError} (32 ∷ 45 ∷ 49 ∷ 50 ∷ []) 16
      (inr (omega arith, omega arith))

parse_guest_strtoul-digits_example :
    parse_guest_strtoul {E = MemoryAccessError} (map digit_char (4 ∷ 2 ∷ 9 ∷ [])) 10 ≡ ok (429, 3)
parse_guest_strtoul-digits_example =
    parse_guest_strtoul-digits {E = MemoryAccessError} 10 4 (2 ∷ 9 ∷ []) (omega arith) (omega arith)
      (omega arith, (omega arith, (omega arith, tt)))
