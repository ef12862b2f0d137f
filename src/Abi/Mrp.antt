-- ===== src/Abi/Mrp.antt =====
-- crates/vmrp-abi/src/mrp.rs: the MRP archive, a header of 240 bytes and a directory of named ranges
-- of the file. `String::from_utf8_lossy` is a parameter.
pub mod Files
pub mod Directory
pub mod Archive
pub mod Entry
pub mod RoundTrip
use vmrp_rust.Prelude.{
  ℕ, zero, suc, ◌+◌, ◌-◌, ◌*◌, ◌^◌, Option, none, some, List, [], ◌∷◌, ◌++◌, ◌||◌, ◌&&◌, not, Bool,
  true, false, length, take, drop, ltb, leb, ◌==◌, ◌!=◌, if◌then◌else◌,
}
use vmrp_rust.Abi.{Bytes, nth, slice, eq_bytes, le_u32}
use vmrp_rust.Abi.Outcome.{Outcome, ok, err, panicked, out_of_fuel, or_panic, ok_or, ◌>>=◌}

-- A string as its bytes.
abbrev pub String : Type 0
String = List ℕ

abbrev pub mrp_header_len : ℕ
mrp_header_len = 240

-- "MRPG"
abbrev pub mrp_magic : Bytes
mrp_magic = 77 ∷ 82 ∷ 80 ∷ 71 ∷ []

pub record MrpHeader : Type 0 where
  pub file_start : ℕ
  pub file_len : ℕ
  pub list_start : ℕ
  pub internal_name : String
  pub app_name : String
  pub appid : ℕ
  pub version : ℕ

pub record MrpEntry : Type 0 where
  pub name : String
  pub offset : ℕ
  pub len : ℕ

pub record MrpFile : Type 0 where
  pub bytes : Bytes
  pub header : MrpHeader
  pub entries : List MrpEntry

pub data MrpLoadError : Type 0 where
  invalid_header : MrpLoadError
  io : MrpLoadError
  truncated : MrpLoadError
  malformed_directory : MrpLoadError

unfoldable pub read_u32_at : Bytes → ℕ → Outcome MrpLoadError ℕ
read_u32_at bytes offset =
    if ltb (length bytes) (offset + 4) then err truncated else ok (le_u32 bytes offset)

-- The bytes before the first zero, or all.
abbrev pub until_zero : Bytes → Bytes
until_zero [] = []
until_zero (b ∷ bs) = if b == 0 then [] else b ∷ until_zero bs

abbrev pub is_empty : String → Bool
is_empty [] = true
is_empty (c ∷ cs) = false

-- `if guard { return Err(e); }`
abbrev pub reject_if : Bool → MrpLoadError → Outcome MrpLoadError (Unit {0})
reject_if true e = err e
reject_if false e = ok tt

-- `entries.push(entry)`, in front of those that the later turns push.
abbrev pub push_entry : MrpEntry → List MrpEntry × ℕ → Outcome MrpLoadError (List MrpEntry × ℕ)
push_entry entry (entries, cursor) = ok (entry ∷ entries, cursor)

module _ (from_utf8_lossy : Bytes → String) where
  unfoldable pub parse_c_string : Bytes → String
  parse_c_string bytes = from_utf8_lossy (until_zero bytes)

  -- One turn of the directory's loop: the entry at the cursor, and the cursor after it.
  unfoldable pub read_entry : Bytes → ℕ → ℕ → Outcome MrpLoadError (MrpEntry × ℕ)
  unfolding read_u32_at slice parse_c_string
  read_entry bytes end cursor = do
    name_len ← read_u32_at bytes cursor
    _ ← reject_if (name_len == 0 || ltb end (cursor + 4 + name_len + 12)) malformed_directory
    raw ← or_panic (slice bytes (cursor + 4) (cursor + 4 + name_len))
    offset ← read_u32_at bytes (cursor + 4 + name_len)
    len ← read_u32_at bytes (cursor + 4 + name_len + 4)
    _reserved ← read_u32_at bytes (cursor + 4 + name_len + 8)
    _ ← reject_if (is_empty (parse_c_string raw)) malformed_directory
    _ ← reject_if (leb (2 ^ 64) (offset + len)) malformed_directory
    _ ← reject_if (ltb (length bytes) (offset + len)) malformed_directory
    ok (
      record { name = parse_c_string raw; offset = offset; len = len },
      cursor + 4 + name_len + 12,
    )

  -- The `while cursor < end` loop: the entries, and the cursor at its end.
  unfoldable pub read_directory : ℕ → Bytes → ℕ → ℕ → Outcome MrpLoadError (List MrpEntry × ℕ)
  unfolding read_entry
  read_directory zero bytes end cursor = if ltb cursor end then out_of_fuel else ok ([], cursor)
  read_directory (suc fuel) bytes end cursor = elim (ltb cursor end) [
    | false ↦ ok ([], cursor)
    | true ↦
        read_entry bytes end cursor >>= λ e. read_directory fuel bytes end e.1 >>= push_entry e.0
  ]

  -- Every turn takes at least 17 bytes, so the length of the file is enough fuel.
  unfoldable pub from_bytes : Bytes → Outcome MrpLoadError MrpFile
  unfolding read_u32_at slice parse_c_string read_directory
  from_bytes bytes = do
    _ ← reject_if (ltb (length bytes) mrp_header_len) truncated
    magic ← or_panic (slice bytes 0 4)
    _ ← reject_if (not (eq_bytes magic mrp_magic)) invalid_header
    start ← read_u32_at bytes 4
    _ ← reject_if (leb (2 ^ 32) (start + 8)) malformed_directory
    file_len ← read_u32_at bytes 8
    list_start ← read_u32_at bytes 12
    _ ← reject_if (ltb (length bytes) (start + 8) || ltb (start + 8) list_start) malformed_directory
    _ ← reject_if (ltb 0 file_len && ltb (length bytes) file_len) malformed_directory
    internal_name ← or_panic (slice bytes 16 28)
    app_name ← or_panic (slice bytes 28 52)
    appid ← read_u32_at bytes 68
    version ← read_u32_at bytes 72
    directory ← read_directory (length bytes) bytes (start + 8) list_start
    _ ← reject_if (directory.1 != start + 8) malformed_directory
    ok (record {
      bytes = bytes;
      header = record {
        file_start = start + 8;
        file_len = file_len;
        list_start = list_start;
        internal_name = parse_c_string internal_name;
        app_name = parse_c_string app_name;
        appid = appid;
        version = version;
      };
      entries = directory.0;
    })
