-- ===== src/Abi/Mrp/Archive.antt =====
-- `MrpFile::from_bytes` (crates/vmrp-abi/src/mrp.rs) as a whole: what an archive that is read has.
use vmrp_rust.Prelude.{
  ℕ, ◌+◌, ◌^◌, ◌≤◌, ◌≡◌, All, ◌||◌, ◌&&◌, not, length, ltb, leb, ◌!=◌, arith, refl,
}
use vmrp_rust.Abi.{Bytes, eq_bytes}
use vmrp_rust.Abi.Outcome.{ok, ◌>>=◌, Safely, answers, bind-Safely}
use vmrp_rust.Abi.Mrp.Directory.{
  InFile, read_u32_at-Safely, reject_if-Safely, slice-Safely, read_directory-Safely,
}
use vmrp_rust.Abi.Mrp.{
  String, MrpFile, mrp_header_len, mrp_magic, malformed_directory, reject_if, parse_c_string,
  read_directory, from_bytes,
}

-- An archive as it is read: its bytes, a directory that lies between `list_start` and `file_start` in
-- the file, and entries each with a name and a range of the file.
pub record IsValid (bytes : Bytes) (f : MrpFile) : Type 0 where
  pub kept : f.bytes ≡ bytes
  pub header_fits : mrp_header_len ≤ length bytes
  pub list_fits : f.header.list_start ≤ f.header.file_start
  pub directory_fits : f.header.file_start ≤ length bytes
  pub file_fits : f.header.file_len ≤ length bytes
  pub entries_fit : All (InFile bytes) f.entries

-- The rest of the header, and the directory.
module _ (from_utf8_lossy : Bytes → String) (bytes : Bytes) (start : ℕ)
    (size : mrp_header_len ≤ length bytes) where
  listed :
      (file_len list_start : ℕ) (internal_name app_name : Bytes)
      → (list_start ≤ start + 8) × (start + 8 ≤ length bytes) × (file_len ≤ length bytes)
      → (appid version : ℕ)
      → Safely (IsValid bytes) (
          read_directory from_utf8_lossy (length bytes) bytes (start + 8) list_start
          >>= λ directory. reject_if (directory.1 != start + 8) malformed_directory >>= λ _.
              ok (record {
                bytes = bytes;
                header = record {
                  file_start = start + 8;
                  file_len = file_len;
                  list_start = list_start;
                  internal_name = parse_c_string from_utf8_lossy internal_name;
                  app_name = parse_c_string from_utf8_lossy app_name;
                  appid = appid;
                  version = version;
                };
                entries = directory.0;
              }))
  listed file_len list_start internal_name app_name fits appid version =
      bind-Safely _ _
        (read_directory-Safely from_utf8_lossy bytes (length bytes) (start + 8) list_start fits.1
          fits.0 (omega (arith, fits.1)))
        (λ directory l. bind-Safely _ _ (reject_if-Safely (directory.1 != start + 8) _) (λ _ _.
          answers (record {
            kept = refl;
            header_fits = size;
            list_fits = fits.0;
            directory_fits = fits.1;
            file_fits = fits.2;
            entries_fit = l.0;
          })))

-- Reading any bytes as an archive ends without a panic and within its fuel, in an error or in an
-- archive each entry of which has a name and a range that lies in the file.
pub from_bytes-IsValid :
    (from_utf8_lossy : Bytes → String) (bytes : Bytes)
    → Safely (IsValid bytes) (from_bytes from_utf8_lossy bytes)
unfolding from_bytes
from_bytes-IsValid from_utf8_lossy bytes =
    bind-Safely _ _ (reject_if-Safely (ltb (length bytes) mrp_header_len) _) (λ _ h0.
      let size : mrp_header_len ≤ length bytes = ground (arith, h0) in
      bind-Safely _ _ (slice-Safely _ bytes 0 4 (omega arith) (omega (arith, size))) (λ magic h1.
        bind-Safely _ _ (reject_if-Safely (not (eq_bytes magic mrp_magic)) _) (λ _ h2.
          bind-Safely _ _ (read_u32_at-Safely bytes 4) (λ start h3.
            bind-Safely _ _ (reject_if-Safely (leb (2 ^ 32) (start + 8)) _) (λ _ h4.
              bind-Safely _ _ (read_u32_at-Safely bytes 8) (λ file_len h5.
                bind-Safely _ _ (read_u32_at-Safely bytes 12) (λ list_start h6.
                  bind-Safely _ _
                    (reject_if-Safely (ltb (length bytes) (start + 8) || ltb (start + 8) list_start)
                      _)
                    (λ _ h7.
                      bind-Safely _ _
                        (reject_if-Safely (ltb 0 file_len && ltb (length bytes) file_len) _)
                        (λ _ h8.
                          bind-Safely _ _
                            (slice-Safely _ bytes 16 28 (omega arith) (omega (arith, size)))
                            (λ internal_name h9.
                              bind-Safely _ _
                                (slice-Safely _ bytes 28 52 (omega arith) (omega (arith, size)))
                                (λ app_name h10.
                                  bind-Safely _ _ (read_u32_at-Safely bytes 68) (λ appid h11.
                                    bind-Safely _ _ (read_u32_at-Safely bytes 72) (λ version h12.
                                      listed from_utf8_lossy bytes start size file_len list_start
                                        internal_name app_name
                                        (ground (arith, h7), ground (arith, h7), ground (arith, h8))
                                        appid version)))))))))))))
