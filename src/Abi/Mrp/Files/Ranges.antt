-- ===== src/Abi/Mrp/Files/Ranges.antt =====
-- The files of an archive that was read (crates/vmrp-abi/src/mrp.rs) are ranges of it.
use vmrp_rust.Prelude.{
  ℕ, ◌+◌, ◌-◌, ◌≤◌, ◌≡◌, ◌∙◌, Option, none, some, List, [], ◌∷◌, All, Bool, true, false, length,
  take, drop, length-take, length-drop, ◌&&◌, not, leb, ltb, ◌==◌, if◌then◌else◌, arith, refl, ap,
}
use vmrp_rust.Prelude.Result
use vmrp_rust.Abi.{Bytes, eq_bytes}
use vmrp_rust.Abi.Outcome.{ok, ok_or, Safely, answers, fails, bind-Safely, weaken-Safely}
use vmrp_rust.Abi.Ext
use vmrp_rust.Abi.Ext.{ExtFile, ext_header, invalid_header, truncated, ExtLoadError}
use vmrp_rust.Abi.Mrp.{String, MrpEntry, MrpFile, from_bytes}
use vmrp_rust.Abi.Mrp.Directory.{InFile, slice-Safely}
use vmrp_rust.Abi.Mrp.Archive.{IsValid, from_bytes-IsValid}
use vmrp_rust.Abi.Mrp.Files.{
  MrpDecodeError, MrpRuntimeAssets, find, entry, entry_bytes, file_bytes, file_bytes_inflated,
  inflate, gzip_magic, ext_of, start_or, start_mr_name, load_start_mr, runtime_assets_with_ext,
  runtime_assets, inflate_failed, not_found,
}

-- A found entry is one of the entries.
abbrev Found : (MrpEntry → Type 0) → Option MrpEntry → Type 0
Found P none = Unit
Found P (some e) = P e

find-Found :
    (P : MrpEntry → Type 0) (test : MrpEntry → Bool) (entries : List MrpEntry)
    → All P entries
    → Found P (find test entries)
find-Found P test [] h = tt
find-Found P test (e ∷ entries) h =
    elim (test e) as (λ t. Found P (if t then some e else find test entries)) [
      | true ↦ h.0
      | false ↦ find-Found P test entries h.1
    ]

-- What a name leads to: nothing, or as many bytes as the entry says, from its offset on.
abbrev pub Content : MrpFile → Option MrpEntry → Option Bytes → Type 0
Content f none none = Unit
Content f (some e) (some content) =
    (content ≡ take e.len (drop e.offset f.bytes)) × (length content ≡ e.len)
Content f _ _ = ⊥

module _ (bytes : Bytes) (f : MrpFile) (v : IsValid bytes f) where
  content-length :
      (e : MrpEntry)
      → e.offset + e.len ≤ length f.bytes
      → length (take e.len (drop e.offset f.bytes)) ≡ e.len
  content-length e h =
      omega (arith, length-take e.len (drop e.offset f.bytes), length-drop e.offset f.bytes, h)

  in_file : (e : MrpEntry) → InFile bytes e → e.offset + e.len ≤ length f.bytes
  in_file e h = omega (arith, h.1, ap (λ b. length b) v.kept)

  cut : (offset len : ℕ) → offset + len - offset ≡ len
  cut offset len = omega arith

  entry_bytes-Content :
      (x : Option MrpEntry) → Found (InFile bytes) x → Safely (Content f x) (entry_bytes f x)
  entry_bytes-Content none h = answers tt
  entry_bytes-Content (some e) h =
      bind-Safely _ _
        (slice-Safely MrpDecodeError f.bytes e.offset (e.offset + e.len) (omega arith)
          (in_file e h))
        (λ content p.
          let q : content ≡ take e.len (drop e.offset f.bytes) =
            p ∙ ap (λ n. take n (drop e.offset f.bytes)) (cut e.offset e.len) in
          answers (q, ap (λ c. length c) q ∙ content-length e (in_file e h)))

  file_bytes-Content : (name : String) → Safely (Content f (entry f name)) (file_bytes f name)
  unfolding file_bytes entry
  file_bytes-Content name =
      entry_bytes-Content (entry f name)
        (find-Found (InFile bytes) (λ e. eq_bytes e.name name) f.entries v.entries_fit)

same_head : (x y : ℕ) (rest : Bool) → ((x == y) && rest) ≡ true → x ≡ y
same_head x y rest h = ground (arith, h)

same_rest : (x y : ℕ) (rest : Bool) → ((x == y) && rest) ≡ true → rest ≡ true
same_rest x y rest h = ground (arith, h)

eq_bytes_sound : (a b : Bytes) → eq_bytes a b ≡ true → a ≡ b
eq_bytes_sound [] [] h = refl
eq_bytes_sound [] (y ∷ ys) h = ground arith
eq_bytes_sound (x ∷ xs) [] h = ground arith
eq_bytes_sound (x ∷ xs) (y ∷ ys) h =
    ap (λ z. z ∷ xs) (same_head x y (eq_bytes xs ys) h)
    ∙ ap (λ z. y ∷ z) (eq_bytes_sound xs ys (same_rest x y (eq_bytes xs ys) h))

-- An `.ext` file that was read starts with its header.
abbrev pub HasHeader : MrpRuntimeAssets → Type 0
HasHeader a = Ext.header a.cfunction_ext ≡ ext_header

ext_of-Safely :
    (bytes : Bytes) → Safely (λ x. Ext.header x ≡ ext_header) (ext_of (Ext.from_bytes bytes))
unfolding Ext.from_bytes
ext_of-Safely bytes =
    if_rejected (ltb (length bytes) (length ext_header))
      (if not (eq_bytes (take (length ext_header) bytes) ext_header)
        then Result.err invalid_header
        else Result.ok (record { bytes = bytes }))
      (if_compared (eq_bytes (take (length ext_header) bytes) ext_header) refl)
  where
    if_rejected :
        (t : Bool) (x : Result.Result ExtLoadError ExtFile)
        → Safely (λ x. Ext.header x ≡ ext_header) (ext_of x)
        → Safely (λ x. Ext.header x ≡ ext_header) (ext_of (if t then Result.err truncated else x))
    if_rejected true x h = fails
    if_rejected false x h = h

    if_compared :
        (t : Bool)
        → eq_bytes (take (length ext_header) bytes) ext_header ≡ t
        → Safely
            (λ x. Ext.header x ≡ ext_header)
            (ext_of
              (if not t then Result.err invalid_header else Result.ok (record { bytes = bytes })))
    if_compared true p = answers (eq_bytes_sound (take (length ext_header) bytes) ext_header p)
    if_compared false p = fails

ok_or-Safely : {E A : Type 0} (e : E) (x : Option A) → Safely (λ a. x ≡ some a) (ok_or e x)
ok_or-Safely e none = fails
ok_or-Safely e (some a) = answers refl

module _ (gunzip : Bytes → Option Bytes) (bytes : Bytes) (f : MrpFile) (v : IsValid bytes f) where
  inflate-Safely : (b : Bytes) → Safely (λ _. Unit {0}) (inflate gunzip b)
  unfolding inflate
  inflate-Safely b =
      elim (leb (length gzip_magic) (length b) && eq_bytes (take (length gzip_magic) b) gzip_magic)
        as (λ t. Safely (λ _. Unit {0}) (if t then ok_or inflate_failed (gunzip b) else ok b)) [
          | true ↦ weaken-Safely (ok_or-Safely inflate_failed (gunzip b)) (λ a _. tt)
          | false ↦ answers tt
        ]

  file_bytes_inflated-Safely :
      (name : String) → Safely (λ _. Unit {0}) (file_bytes_inflated gunzip f name)
  unfolding file_bytes_inflated
  file_bytes_inflated-Safely name =
      bind-Safely _ _ (file_bytes-Content bytes f v name)
        (λ x _. bind-Safely _ _ (ok_or-Safely not_found x) (λ b _. inflate-Safely b))

  start_or-Safely : (x : Option MrpEntry) → Safely (λ _. Unit {0}) (start_or gunzip f x)
  start_or-Safely (some _) = file_bytes_inflated-Safely start_mr_name
  start_or-Safely none =
      bind-Safely _ _ (ok_or-Safely not_found _)
        (λ (e : MrpEntry) _. file_bytes_inflated-Safely e.name)

  runtime_assets-HasHeader : Safely HasHeader (runtime_assets gunzip f)
  unfolding runtime_assets runtime_assets_with_ext load_start_mr
  runtime_assets-HasHeader = bind-Safely _ _ (file_bytes_inflated-Safely _) (λ b _.
      bind-Safely _ _ (ext_of-Safely b)
        (λ x h. bind-Safely _ _ (start_or-Safely (entry f start_mr_name)) (λ s _. answers h)))

-- What can be asked of an archive.
abbrev pub Served : (Bytes → Option Bytes) → MrpFile → Type 0
Served gunzip f =
    ((name : String) → Safely (Content f (entry f name)) (file_bytes f name))
    × Safely HasHeader (runtime_assets gunzip f)

-- Whatever the bytes, and whatever the decoders answer: reading them as an archive does not panic,
-- and in the archive each name leads to nothing or to the bytes of its entry, as many as the entry
-- says, and the files for a start are had without a panic, their `.ext` file with its header.
pub from_bytes-Served :
    (from_utf8_lossy : Bytes → String) (gunzip : Bytes → Option Bytes) (bytes : Bytes)
    → Safely (Served gunzip) (from_bytes from_utf8_lossy bytes)
from_bytes-Served from_utf8_lossy gunzip bytes =
    weaken-Safely (from_bytes-IsValid from_utf8_lossy bytes)
      (λ f v. (file_bytes-Content bytes f v, runtime_assets-HasHeader gunzip bytes f v))
