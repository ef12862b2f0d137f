-- ===== src/Abi/Mrp/Directory.antt =====
-- The directory that `MrpFile::from_bytes` (crates/vmrp-abi/src/mrp.rs) reads: its loop ends, no
-- slice panics, and every entry lies in the file.
use vmrp_rust.Prelude.{
  ℕ, zero, suc, ◌+◌, ◌-◌, ◌^◌, ◌≤◌, ◌<◌, ◌≡◌, none, some, List, [], All, ◌||◌, Bool, true, false,
  length, take, drop, ltb, leb, ◌==◌, if◌then◌else◌, arith, refl,
}
use vmrp_rust.Abi.{Bytes, slice, le_u32}
use vmrp_rust.Abi.Outcome.{ok, err, or_panic, ◌>>=◌, Safely, answers, fails, bind-Safely}
use vmrp_rust.Abi.Mrp.{
  String, MrpEntry, MrpLoadError, truncated, malformed_directory, read_u32_at, is_empty, reject_if,
  parse_c_string, read_entry, push_entry, read_directory,
}

-- An entry with a name and a range of the file.
abbrev pub InFile : Bytes → MrpEntry → Type 0
InFile bytes e = (is_empty e.name ≡ false) × (e.offset + e.len ≤ length bytes)

pub read_u32_at-Safely :
    (bytes : Bytes) (offset : ℕ)
    → Safely (λ _. offset + 4 ≤ length bytes) (read_u32_at bytes offset)
unfolding read_u32_at
read_u32_at-Safely bytes offset =
    elim (ltb (length bytes) (offset + 4))
        as (λ t.
          ltb (length bytes) (offset + 4) ≡ t
          → Safely (λ _. offset + 4 ≤ length bytes)
              (if t then err truncated else ok (le_u32 bytes offset))) [
                | true ↦ λ p. fails
                | false ↦ λ p. answers (ground arith)
              ]
      refl

pub reject_if-Safely : (t : Bool) (e : MrpLoadError) → Safely (λ _. t ≡ false) (reject_if t e)
reject_if-Safely true e = fails
reject_if-Safely false e = answers refl

in_range :
    (bytes : Bytes) (start end : ℕ)
    → start ≤ end
    → end ≤ length bytes
    → (ltb end start || ltb (length bytes) end) ≡ false
in_range bytes start end p q = ground (arith, p, q)

pub slice-Safely :
    (E : Type 0) (bytes : Bytes) (start end : ℕ)
    → start ≤ end
    → end ≤ length bytes
    → Safely {E = E}
        (λ raw. raw ≡ take (end - start) (drop start bytes))
        (or_panic (slice bytes start end))
unfolding slice
slice-Safely E bytes start end p q =
    coe 1 0
      (k.
        Safely {E = E} (λ raw. raw ≡ take (end - start) (drop start bytes))
          (or_panic (
            if in_range bytes start end p q k
            then none
            else some (take (end - start) (drop start bytes)))))
      (answers refl)

module _ (from_utf8_lossy : Bytes → String) (bytes : Bytes) where
  -- What a turn of the loop leaves.
  abbrev Turned : ℕ → ℕ → MrpEntry × ℕ → Type 0
  Turned end cursor r = (InFile bytes (r.0)) × (cursor + 17 ≤ r.1) × (r.1 ≤ end)

  -- The end of a turn, after its reads.
  module _ (end cursor name_len : ℕ) (raw : Bytes) (offset len : ℕ)
      (room : (0 < name_len) × (cursor + 4 + name_len + 12 ≤ end)) where
    last_checks : Safely (Turned end cursor) (
        reject_if (is_empty (parse_c_string from_utf8_lossy raw)) malformed_directory >>= λ _.
        reject_if (leb (2 ^ 64) (offset + len)) malformed_directory >>= λ _.
        reject_if (ltb (length bytes) (offset + len)) malformed_directory >>= λ _. ok (
          record { name = parse_c_string from_utf8_lossy raw; offset = offset; len = len },
          cursor + 4 + name_len + 12,
        ))
    last_checks =
        bind-Safely _ _ (reject_if-Safely (is_empty (parse_c_string from_utf8_lossy raw)) _)
          (λ _ h0. bind-Safely _ _ (reject_if-Safely (leb (2 ^ 64) (offset + len)) _) (λ _ h1.
            bind-Safely _ _ (reject_if-Safely (ltb (length bytes) (offset + len)) _)
              (λ _ h2. answers ((h0, ground (arith, h2)), omega (arith, room.0), room.1))))

  pushed :
      (end : ℕ) (e : MrpEntry) (l : List MrpEntry × ℕ)
      → InFile bytes e
      → All (InFile bytes) (l.0) × (l.1 ≡ end)
      → Safely (λ r. All (InFile bytes) (r.0) × (r.1 ≡ end)) (push_entry e l)
  pushed end e (entries, cursor) h k = answers ((h, k.0), k.1)

  read_entry-Safely :
      (end cursor : ℕ)
      → end ≤ length bytes
      → Safely (Turned end cursor) (read_entry from_utf8_lossy bytes end cursor)
  unfolding read_entry
  read_entry-Safely end cursor h = bind-Safely _ _ (read_u32_at-Safely bytes cursor) (λ name_len h0.
      bind-Safely _ _ (reject_if-Safely (name_len == 0 || ltb end (cursor + 4 + name_len + 12)) _)
        (λ _ h1.
          let room : (0 < name_len) × (cursor + 4 + name_len + 12 ≤ end) = ground (arith, h1) in
          bind-Safely _ _
            (slice-Safely _ bytes (cursor + 4) (cursor + 4 + name_len) (omega arith)
              (omega (arith, room.1)))
            (λ raw h2.
              bind-Safely _ _ (read_u32_at-Safely bytes (cursor + 4 + name_len)) (λ offset h3.
                bind-Safely _ _ (read_u32_at-Safely bytes (cursor + 4 + name_len + 4)) (λ len h4.
                  bind-Safely _ _ (read_u32_at-Safely bytes (cursor + 4 + name_len + 8))
                    (λ reserved h5. last_checks end cursor name_len raw offset len room))))))

  -- The loop ends at the end of the directory, with entries that lie in the file.
  abbrev Listed : ℕ → List MrpEntry × ℕ → Type 0
  Listed end r = All (InFile bytes) (r.0) × (r.1 ≡ end)

  at_end : (end cursor : ℕ) → end ≤ cursor → ltb cursor end ≡ false
  at_end end cursor h = ground (arith, h)

  pub read_directory-Safely :
      (fuel end cursor : ℕ)
      → end ≤ length bytes
      → cursor ≤ end
      → end ≤ cursor + fuel
      → Safely (Listed end) (read_directory from_utf8_lossy fuel bytes end cursor)
  unfolding read_directory
  read_directory-Safely zero end cursor h p q =
      rw (at_end end cursor (omega (arith, q))) (answers (tt, omega (arith, p, q)))
  read_directory-Safely (suc fuel) end cursor h p q =
      elim (ltb cursor end)
          as (λ t.
            ltb cursor end ≡ t
            → Safely (Listed end) (elim t [
              | false ↦ ok ([], cursor)
              | true ↦ read_entry from_utf8_lossy bytes end cursor >>= λ e.
                  read_directory from_utf8_lossy fuel bytes end e.1 >>= push_entry e.0
            ])) [
              | false ↦ λ c. answers (tt, ground (arith, p))
              | true ↦ λ c. bind-Safely _ _ (read_entry-Safely end cursor h) (λ e r.
                  bind-Safely _ _ (read_directory-Safely fuel end e.1 h r.2 (omega (arith, r.1)))
                    (λ l m. pushed end e.0 l r.0 m))
            ]
        refl
