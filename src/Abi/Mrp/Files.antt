-- ===== src/Abi/Mrp/Files.antt =====
-- crates/vmrp-abi/src/mrp.rs: the files of an archive, by name, and those that a start needs. The
-- decoder of flate2 is a parameter: the bytes that `read_to_end` answers, or none when it fails.
pub mod Ranges
use vmrp_rust.Prelude.{
  ℕ, zero, suc, ◌+◌, ◌-◌, Option, none, some, List, [], ◌∷◌, ◌&&◌, Bool, true, false, length, take,
  drop, leb, ltb, ◌==◌, if◌then◌else◌,
}
use vmrp_rust.Prelude.Result
use vmrp_rust.Prelude.Result.{Result}
use vmrp_rust.Abi.{Bytes, slice, eq_bytes}
use vmrp_rust.Abi.Outcome.{Outcome, ok, err, or_panic, ok_or, ◌>>=◌}
use vmrp_rust.Abi.Ext
use vmrp_rust.Abi.Ext.{ExtFile, ExtLoadError}
use vmrp_rust.Abi.Mrp.{String, MrpEntry, MrpFile}

pub data MrpDecodeError : Type 0 where
  not_found : MrpDecodeError
  inflate_failed : MrpDecodeError
  invalid_ext_format : MrpDecodeError

pub record MrpRuntimeAssets : Type 0 where
  pub cfunction_ext : ExtFile
  pub start_mr : Bytes

abbrev pub gzip_magic : Bytes
gzip_magic = 0x1f ∷ 0x8b ∷ 0x08 ∷ []

-- "start.mr", "cfunction.ext" and ".mr"
abbrev pub start_mr_name : String
start_mr_name = 115 ∷ 116 ∷ 97 ∷ 114 ∷ 116 ∷ 46 ∷ 109 ∷ 114 ∷ []

abbrev pub cfunction_ext_name : String
cfunction_ext_name = 99 ∷ 102 ∷ 117 ∷ 110 ∷ 99 ∷ 116 ∷ 105 ∷ 111 ∷ 110 ∷ 46 ∷ 101 ∷ 120 ∷ 116 ∷ []

abbrev pub mr_suffix : String
mr_suffix = 46 ∷ 109 ∷ 114 ∷ []

-- `iter().find(…)`.
abbrev pub find : (MrpEntry → Bool) → List MrpEntry → Option MrpEntry
find test [] = none
find test (e ∷ entries) = if test e then some e else find test entries

unfoldable pub entry : MrpFile → String → Option MrpEntry
entry f name = find (λ e. eq_bytes e.name name) f.entries

abbrev pub entry_bytes : MrpFile → Option MrpEntry → Outcome MrpDecodeError (Option Bytes)
entry_bytes f none = ok none
entry_bytes f (some e) =
    or_panic (slice f.bytes e.offset (e.offset + e.len)) >>= λ bytes. ok (some bytes)

unfoldable pub file_bytes : MrpFile → String → Outcome MrpDecodeError (Option Bytes)
unfolding slice entry
file_bytes f name = entry_bytes f (entry f name)

abbrev pub ends_with : String → String → Bool
ends_with s suffix =
    leb (length suffix) (length s) && eq_bytes (drop (length s - length suffix) s) suffix

-- `ExtFile::from_bytes(…).map_err(|_| InvalidExtFormat)?`
abbrev pub ext_of : Result ExtLoadError ExtFile → Outcome MrpDecodeError ExtFile
ext_of (Result.ok f) = ok f
ext_of (Result.err _) = err invalid_ext_format

module _ (gunzip : Bytes → Option Bytes) where
  unfoldable pub inflate : Bytes → Outcome MrpDecodeError Bytes
  inflate bytes =
      if leb (length gzip_magic) (length bytes)
        && eq_bytes (take (length gzip_magic) bytes) gzip_magic
      then ok_or inflate_failed (gunzip bytes)
      else ok bytes

  unfoldable pub file_bytes_inflated : MrpFile → String → Outcome MrpDecodeError Bytes
  unfolding file_bytes inflate
  file_bytes_inflated f name = do
    found ← file_bytes f name
    bytes ← ok_or not_found found
    inflate bytes

  -- `start.mr`, or else the first file with a name in `.mr`.
  abbrev pub start_or : MrpFile → Option MrpEntry → Outcome MrpDecodeError Bytes
  start_or f (some _) = file_bytes_inflated f start_mr_name
  start_or f none = do
    fallback ← ok_or not_found (find (λ e. ends_with e.name mr_suffix) f.entries)
    file_bytes_inflated f fallback.name

  unfoldable pub load_start_mr : MrpFile → Outcome MrpDecodeError Bytes
  unfolding file_bytes_inflated entry
  load_start_mr f = start_or f (entry f start_mr_name)

  unfoldable pub runtime_assets_with_ext :
      MrpFile → ExtFile → Outcome MrpDecodeError MrpRuntimeAssets
  unfolding load_start_mr
  runtime_assets_with_ext f cfunction_ext = do
    start_mr ← load_start_mr f
    ok (record { cfunction_ext = cfunction_ext; start_mr = start_mr })

  unfoldable pub runtime_assets : MrpFile → Outcome MrpDecodeError MrpRuntimeAssets
  unfolding file_bytes_inflated runtime_assets_with_ext Ext.from_bytes
  runtime_assets f = do
    ext_bytes ← file_bytes_inflated f cfunction_ext_name
    cfunction_ext ← ext_of (Ext.from_bytes ext_bytes)
    runtime_assets_with_ext f cfunction_ext
