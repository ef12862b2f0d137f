-- ===== src/Abi/Mr/Tests.antt =====
-- A small chunk, and the theorems on it.
use vmrp_rust.Prelude.{ℕ, Bool, leb, ◌≡◌, refl, some, none, List, [], ◌∷◌, false, arith}
use vmrp_rust.Abi.{Bytes}
use vmrp_rust.Abi.Outcome.{ok, err, panicked}
use vmrp_rust.Abi.Mr.{truncated}
use vmrp_rust.Abi.Mr.Parse.{from_bytes, read_header, chunk_of}
use vmrp_rust.Abi.Mr.Cursor.{expect_bytes, take_raw}
use vmrp_rust.Abi.Mr.Ends.{Ends}
use vmrp_rust.Abi.Mr.RoundTrip.{
  WrittenFunction, written, none_written, and_written, WrittenConstant, nil_constant,
  number_constant, string_constant, WrittenLocal, kept,
}
use vmrp_rust.Abi.Mr.Nested.{IsWritable}
use vmrp_rust.Abi.Mr.Encoded.{write_chunk, from_bytes-write_chunk}

abbrev lossless : Bytes → Bytes
lossless bytes = bytes

-- An allocator that grants up to a thousand functions at once.
abbrev roomy : ℕ → Bool
roomy n = leb n 1000

-- A function with a line and an instruction and nothing else, and one around it, with a local variable
-- that has a name, an upvalue, and a constant of each kind.
abbrev leaf : WrittenFunction
leaf = written none 7 0 1 0 2 (3 ∷ []) [] [] [] none_written (5 ∷ [])

abbrev constants : List WrittenConstant
constants =
    nil_constant
    ∷ number_constant (1 ∷ 2 ∷ 3 ∷ 4 ∷ 5 ∷ 6 ∷ 7 ∷ 8 ∷ [])
    ∷ string_constant (some (99 ∷ []))
    ∷ []

abbrev local : WrittenLocal
local = record { name = some (98 ∷ []); start_pc = 1; end_pc = 2 }

abbrev nested : WrittenFunction
nested =
    written (some (97 ∷ [])) 0 0 0 1 2 [] (local ∷ []) (none ∷ []) constants
      (and_written leaf none_written) (8 ∷ 9 ∷ [])

from_bytes-short : from_bytes lossless (0x1b ∷ 77 ∷ []) roomy ≡ err truncated
unfolding from_bytes read_header expect_bytes take_raw
from_bytes-short = refl

leaf-IsWritable : IsWritable roomy lossless 8 leaf
leaf-IsWritable = (
  tt,
  omega arith,
  omega arith,
  (omega arith, tt),
  (omega arith, tt),
  (omega arith, tt),
  omega arith,
  omega arith,
  refl,
  tt,
)

nested-IsWritable : IsWritable roomy lossless 8 nested
nested-IsWritable = (
  (omega arith, refl),
  omega arith,
  omega arith,
  (omega arith, ((omega arith, omega arith, omega arith), tt)),
  (omega arith, (tt, tt)),
  (omega arith, (tt, (refl, (omega arith, tt)))),
  omega arith,
  omega arith,
  refl,
  (leaf-IsWritable, tt),
)

from_bytes-write_chunk_example :
    from_bytes lossless (write_chunk 0x50 false nested) roomy
    ≡ ok (chunk_of lossless (write_chunk 0x50 false nested) 0x50 false 8 (kept nested))
from_bytes-write_chunk_example =
    from_bytes-write_chunk roomy lossless 0x50 false nested (omega arith, omega arith)
      nested-IsWritable

-- An allocator that refuses even one function: the chunk with a nested function has no answer.
refused_chunk : from_bytes lossless (write_chunk 0x50 false nested) (λ n. leb n 0) ≡ panicked
unfolding from_bytes read_header expect_bytes take_raw
refused_chunk = refl
