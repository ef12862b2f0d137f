-- ===== src/Abi/Ext.antt =====
-- crates/vmrp-abi/src/ext.rs: an `.ext` file, eight bytes of header before the code.
use vmrp_rust.Prelude.{
  ℕ, zero, suc, ◌+◌, ◌*◌, ◌^◌, Option, none, some, List, [], ◌∷◌, length, take, drop, not, ltb, leb,
  if◌then◌else◌,
}
use vmrp_rust.Prelude.Result.{Result, ok, err}
use vmrp_rust.Cpu.Cpsr.{ExecutionMode}
use vmrp_rust.Abi.{Bytes, eq_bytes, le_u32}
use vmrp_rust.Abi.Image.{CodeBlob, with_entry}

-- "MRPGCMAP"
abbrev pub ext_header : Bytes
ext_header = 77 ∷ 82 ∷ 80 ∷ 71 ∷ 67 ∷ 77 ∷ 65 ∷ 80 ∷ []

pub record ExtFile : Type 0 where
  pub bytes : Bytes

pub data ExtLoadError : Type 0 where
  invalid_header : ExtLoadError
  io : ExtLoadError
  truncated : ExtLoadError

unfoldable pub from_bytes : Bytes → Result ExtLoadError ExtFile
from_bytes bytes =
    if ltb (length bytes) (length ext_header)
    then err truncated
    else if not (eq_bytes (take (length ext_header) bytes) ext_header)
    then err invalid_header
    else ok (record { bytes = bytes })

abbrev pub header : ExtFile → Bytes
header f = take (length ext_header) f.bytes

abbrev pub payload : ExtFile → Bytes
payload f = drop (length ext_header) f.bytes

-- The words from `index` on.
abbrev pub words_from : Bytes → ℕ → ℕ → List ℕ
words_from body index zero = []
words_from body index (suc count) = le_u32 body (index * 4) ∷ words_from body (suc index) count

-- A `usize` has 64 bits.
unfoldable pub entry_words : ExtFile → ℕ → Result ExtLoadError (List ℕ)
entry_words f count =
    if leb (2 ^ 64) (count * 4)
    then err truncated
    else if ltb (length (payload f)) (count * 4)
    then err truncated
    else ok (words_from (payload f) 0 count)

-- The addition panics when it overflows a u32.
unfoldable pub to_code_blob : ExtFile → ℕ → Option CodeBlob
to_code_blob f code_base =
    if leb (2 ^ 32) (code_base + 8)
    then none
    else some (with_entry code_base (code_base + 8) f.bytes ExecutionMode.arm)
