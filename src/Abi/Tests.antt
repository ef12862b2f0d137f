-- ===== src/Abi/Tests.antt =====
-- A small archive and a small blob, and the theorems on them.
use vmrp_rust.Prelude.{
  ℕ, zero, suc, ◌+◌, ◌≡◌, refl, Option, none, List, [], ◌∷◌, ◌++◌, All, length, arith,
}
use vmrp_rust.Abi.{Bytes, slice}
use vmrp_rust.Abi.Outcome.{Outcome, ok, err, Safely}
use vmrp_rust.Abi.Image.{CodeBlob, raw_arm, load}
use vmrp_rust.Abi.Image.Contents.{Loaded, load-Loaded}
use vmrp_rust.Abi.Mrp.{
  String, MrpEntry, MrpFile, MrpLoadError, mrp_magic, from_bytes, read_directory, read_entry,
  read_u32_at, parse_c_string, truncated,
}
use vmrp_rust.Abi.Mrp.Archive.{IsValid, from_bytes-IsValid}
use vmrp_rust.Abi.Mrp.Files.Ranges.{Served, from_bytes-Served}
use vmrp_rust.Abi.Written.{to_le_bytes}
use vmrp_rust.Abi.Mrp.Entry.{write_directory, written_len, IsWritable}
use vmrp_rust.Abi.Mrp.RoundTrip.{read_directory-write_directory}

abbrev zeros : ℕ → Bytes
zeros zero = []
zeros (suc n) = 0 ∷ zeros n

abbrev two_entries : List MrpEntry
two_entries =
    record { name = 97 ∷ 46 ∷ 109 ∷ 114 ∷ []; offset = 281; len = 2 }
    ∷ record { name = 98 ∷ []; offset = 0; len = 0 }
    ∷ []

-- The header, with the directory's end 8 above the word that says it.
abbrev header_bytes : Bytes
header_bytes = mrp_magic ++ (to_le_bytes 271 ++ (to_le_bytes 0 ++ (to_le_bytes 240 ++ zeros 224)))

abbrev archive : Bytes
archive = header_bytes ++ write_directory two_entries (1 ∷ 2 ∷ 3 ∷ 4 ∷ [])

abbrev lossless : Bytes → String
lossless bytes = bytes

abbrev no_gzip : Bytes → Option Bytes
no_gzip bytes = none

from_bytes-short : from_bytes lossless (1 ∷ []) ≡ err truncated
unfolding from_bytes
from_bytes-short = refl

two_entries-IsWritable : All (IsWritable archive) two_entries
two_entries-IsWritable = (
  record {
    named = refl;
    whole = (refl, (refl, (refl, (refl, tt))));
    name_fits = omega arith;
    offset_fits = omega arith;
    len_fits = omega arith;
    inside = omega arith;
  },
  (
    record {
      named = refl;
      whole = (refl, tt);
      name_fits = omega arith;
      offset_fits = omega arith;
      len_fits = omega arith;
      inside = omega arith;
    },
    tt,
  ),
)

read_directory-write_directory_example :
    read_directory lossless
      (length archive)
      archive
      (length header_bytes + written_len two_entries)
      (length header_bytes)
    ≡ ok (two_entries, length header_bytes + written_len two_entries)
read_directory-write_directory_example =
    read_directory-write_directory lossless two_entries header_bytes (1 ∷ 2 ∷ 3 ∷ 4 ∷ [])
      two_entries-IsWritable (refl, (refl, tt))

from_bytes-IsValid_example : Safely (IsValid archive) (from_bytes lossless archive)
from_bytes-IsValid_example = from_bytes-IsValid lossless archive

from_bytes-Served_example : Safely (Served no_gzip) (from_bytes lossless archive)
from_bytes-Served_example = from_bytes-Served lossless no_gzip archive

abbrev blob : CodeBlob
blob = raw_arm 0x8_0000 (1 ∷ 2 ∷ 3 ∷ [])

load-Loaded_example : Loaded blob (load blob)
load-Loaded_example = load-Loaded blob (omega arith)

-- A count of entries that `from_bytes` finds.
abbrev count : Outcome MrpLoadError MrpFile → ℕ
count (ok f) = length f.entries
count _ = 0

from_bytes-archive : count (from_bytes lossless archive) ≡ 2
unfolding from_bytes read_directory read_entry read_u32_at parse_c_string slice
from_bytes-archive = refl
