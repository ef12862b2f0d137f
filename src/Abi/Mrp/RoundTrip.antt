-- ===== src/Abi/Mrp/RoundTrip.antt =====
-- A directory that is written as the MRP format has it (crates/vmrp-abi/src/mrp.rs), read back.
use vmrp_rust.Prelude.{
  ℕ, zero, suc, ◌+◌, ◌≤◌, ◌≡◌, List, [], ◌∷◌, ◌++◌, All, true, false, length, length-append, ltb,
  arith, refl, ap, sym,
}
use vmrp_rust.Abi.{Bytes}
use vmrp_rust.Abi.Outcome.{ok, ◌>>=◌}
use vmrp_rust.Abi.Mrp.{String, MrpEntry, read_entry, push_entry, read_directory}
use vmrp_rust.Abi.Written.{to_le_bytes, From, drop-append}
use vmrp_rust.Abi.Mrp.Entry.{
  write_directory, written_len, bind-ok, IsWritable, read_entry-written, at_rest,
}

module _ (from_utf8_lossy : Bytes → String) (bytes : Bytes) where
  more :
      (cursor end : ℕ)
      → ltb cursor end ≡ false
      → end ≡ cursor
      → (fuel : ℕ) → read_directory from_utf8_lossy fuel bytes end cursor ≡ ok ([], end)
  unfolding read_directory
  more cursor end h p zero = rw (h) (ap (λ c. ok ([], c)) (sym p))
  more cursor end h p (suc fuel) = rw (read_directory, h) (ap (λ c. ok ([], c)) (sym p))

  -- A turn of the loop, and the turns after it.
  turn :
      (fuel cursor end after : ℕ) (e : MrpEntry) (entries : List MrpEntry)
      → ltb cursor end ≡ true
      → read_entry from_utf8_lossy bytes end cursor ≡ ok (e, after)
      → read_directory from_utf8_lossy fuel bytes end after ≡ ok (entries, end)
      → read_directory from_utf8_lossy (suc fuel) bytes end cursor ≡ ok (e ∷ entries, end)
  unfolding read_directory
  turn fuel cursor end after e entries h p q =
      rw (read_directory, h)
        (bind-ok _ (λ e. read_directory from_utf8_lossy fuel bytes end e.1 >>= push_entry e.0) p
          (bind-ok _ _ q refl))

  -- The directory, from where it starts.
  directory_from :
      (entries : List MrpEntry)
      → All (IsWritable bytes) entries
      → All (λ e. from_utf8_lossy e.name ≡ e.name) entries
      → (fuel cursor end : ℕ) (rest : Bytes) → From bytes cursor (write_directory entries rest)
      → end ≡ cursor + written_len entries
      → length entries ≤ fuel
      → read_directory from_utf8_lossy fuel bytes end cursor ≡ ok (entries, end)
  directory_from [] w same fuel cursor end rest h p q =
      more cursor end (ground (arith, p)) (omega (arith, p)) fuel
  directory_from (e ∷ entries) w same zero cursor end rest h p q = absurd (omega (arith, q))
  directory_from (e ∷ entries) w same (suc fuel) cursor end rest h p q =
      let later = write_directory entries rest in
      let room : cursor + length e.name + 17 ≤ end = omega (arith, p) in
      turn fuel cursor end (cursor + length e.name + 17) e entries (ground (arith, room))
        (read_entry-written from_utf8_lossy bytes end cursor e later w.0 h room same.0)
        (directory_from entries w.1 same.1 fuel (cursor + length e.name + 17) end rest
          (at_rest from_utf8_lossy bytes end cursor e later w.0 h room same.0) (omega (arith, p))
          (omega (arith, q)))

short : (entries : List MrpEntry) → length entries ≤ written_len entries
short [] = omega arith
short (e ∷ entries) = omega (arith, short entries)

length-written :
    (entries : List MrpEntry) (rest : Bytes)
    → length (write_directory entries rest) ≡ written_len entries + length rest
length-written [] rest = omega arith
length-written (e ∷ entries) rest = omega (
  arith,
  length-append (e.name ++ 0 ∷ []) (
      to_le_bytes e.offset
      ++ (to_le_bytes e.len ++ (to_le_bytes 0 ++ write_directory entries rest))),
  length-append e.name (0 ∷ []),
  length-written entries rest,
)

-- Entries, written as a directory after any bytes and before any others, each with a name that holds
-- no zero and that the decoding of UTF-8 leaves as it is, and with a range of the file: the loop reads
-- back exactly these entries, ends behind them, and the length of the file is enough fuel.
pub read_directory-write_directory :
    (from_utf8_lossy : Bytes → String) (entries : List MrpEntry) (before rest : Bytes)
    → All (IsWritable (before ++ write_directory entries rest)) entries
    → All (λ e. from_utf8_lossy e.name ≡ e.name) entries
    → read_directory from_utf8_lossy
        (length (before ++ write_directory entries rest))
        (before ++ write_directory entries rest)
        (length before + written_len entries)
        (length before)
      ≡ ok (entries, length before + written_len entries)
read_directory-write_directory from_utf8_lossy entries before rest w same =
    let written = write_directory entries rest in
    directory_from from_utf8_lossy (before ++ written) entries w same (length (before ++ written))
      (length before) (length before + written_len entries) rest
      (drop-append before written, omega (arith, length-append before written)) refl
      (omega (arith, short entries, length-append before written, length-written entries rest))
