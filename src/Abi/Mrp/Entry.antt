-- ===== src/Abi/Mrp/Entry.antt =====
-- An entry of a directory that is written as the MRP format has it (crates/vmrp-abi/src/mrp.rs), read
-- back.
use vmrp_rust.Prelude.{
  ℕ, ◌+◌, ◌%◌, ◌^◌, ◌≤◌, ◌<◌, ◌≡◌, ◌∙◌, List, [], ◌∷◌, ◌++◌, All, Bool, false, length,
  length-append, ◌||◌, ◌==◌, ltb, leb, arith, refl, ap, sym,
}
use vmrp_rust.Abi.{Bytes, nth}
use vmrp_rust.Abi.Outcome.{Outcome, ok, or_panic, ◌>>=◌}
use vmrp_rust.Abi.Mrp.{
  String, MrpEntry, malformed_directory, read_u32_at, until_zero, is_empty, reject_if,
  parse_c_string, read_entry,
}
use vmrp_rust.Abi.Written.{
  to_le_bytes, From, nth-From, word, From-append, slice-written, moved, add_zero,
}

-- An entry: the length of its name with the zero that ends it, the name, the zero, the offset, the
-- length, and a reserved word.
abbrev pub write_entry : MrpEntry → Bytes → Bytes
write_entry e rest =
    to_le_bytes (length e.name + 1)
    ++ ((e.name ++ 0 ∷ [])
        ++ (to_le_bytes e.offset ++ (to_le_bytes e.len ++ (to_le_bytes 0 ++ rest))))

abbrev pub write_directory : List MrpEntry → Bytes → Bytes
write_directory [] rest = rest
write_directory (e ∷ entries) rest = write_entry e (write_directory entries rest)

abbrev pub written_len : List MrpEntry → ℕ
written_len [] = 0
written_len (e ∷ entries) = length e.name + 17 + written_len entries

read_u32_at-written :
    (bytes : Bytes) (cursor v : ℕ) (rest : Bytes)
    → v < 2 ^ 32
    → From bytes cursor (to_le_bytes v ++ rest)
    → read_u32_at bytes cursor ≡ ok v
unfolding read_u32_at
read_u32_at-written bytes cursor v rest small h = rw (inside) (
    ap ok (
      rw
        (
          first,
          nth-From bytes cursor 1 _ h,
          nth-From bytes cursor 2 _ h,
          nth-From bytes cursor 3 _ h,
        )
        (word v small)))
  where
    inside : ltb (length bytes) (cursor + 4) ≡ false
    inside = ground (arith, h.1)

    first : nth bytes cursor ≡ v % 256
    first = ap (λ j. nth bytes j) (add_zero cursor) ∙ nth-From bytes cursor 0 _ h

until_zero-written :
    (name : String) → All (λ c. (c == 0) ≡ false) name → until_zero (name ++ 0 ∷ []) ≡ name
until_zero-written [] h = refl
until_zero-written (c ∷ cs) h = rw (h.0, until_zero-written cs h.1)

pub bind-ok :
    {E A B : Type 0} {a : A} {r : Outcome E B} (m : Outcome E A) (f : A → Outcome E B)
    → m ≡ ok a
    → f a ≡ r
    → (m >>= f) ≡ r
bind-ok m f p q = ap (λ x. x >>= f) p ∙ q

passes : (t : Bool) → t ≡ false → reject_if t malformed_directory ≡ ok tt
passes t h = ap (λ b. reject_if b malformed_directory) h

-- A name without a zero in it, and a range of the file.
pub record IsWritable (bytes : Bytes) (e : MrpEntry) : Type 0 where
  pub named : is_empty e.name ≡ false
  pub whole : All (λ c. (c == 0) ≡ false) e.name
  pub name_fits : length e.name + 1 < 2 ^ 32
  pub offset_fits : e.offset < 2 ^ 32
  pub len_fits : e.len < 2 ^ 32
  pub inside : e.offset + e.len ≤ length bytes

module _ (from_utf8_lossy : Bytes → String) (bytes : Bytes) where
  reads_name :
      (e : MrpEntry)
      → IsWritable bytes e
      → from_utf8_lossy e.name ≡ e.name
      → parse_c_string from_utf8_lossy (e.name ++ 0 ∷ []) ≡ e.name
  unfolding parse_c_string
  reads_name e w same = ap from_utf8_lossy (until_zero-written e.name w.whole) ∙ same

  module _ (end cursor : ℕ) (e : MrpEntry) (rest : Bytes) (w : IsWritable bytes e)
      (h : From bytes cursor (write_entry e rest)) (room : cursor + length e.name + 17 ≤ end)
      (same : from_utf8_lossy e.name ≡ e.name) where
    named_len : length (e.name ++ 0 ∷ []) ≡ length e.name + 1
    named_len = omega (arith, length-append e.name (0 ∷ []))

    at_name : From bytes (cursor + 4) (
        (e.name ++ 0 ∷ [])
        ++ (to_le_bytes e.offset ++ (to_le_bytes e.len ++ (to_le_bytes 0 ++ rest))))
    at_name = From-append bytes cursor (to_le_bytes (length e.name + 1)) _ h

    at_offset :
        From bytes
          (cursor + 4 + (length e.name + 1))
          (to_le_bytes e.offset ++ (to_le_bytes e.len ++ (to_le_bytes 0 ++ rest)))
    at_offset =
        moved bytes _ _ _ (From-append bytes (cursor + 4) (e.name ++ 0 ∷ []) _ at_name)
          (ap (λ n. cursor + 4 + n) named_len)

    at_len :
        From bytes
          (cursor + 4 + (length e.name + 1) + 4)
          (to_le_bytes e.len ++ (to_le_bytes 0 ++ rest))
    at_len = From-append bytes (cursor + 4 + (length e.name + 1)) (to_le_bytes e.offset) _ at_offset

    at_reserved : From bytes (cursor + 4 + (length e.name + 1) + 8) (to_le_bytes 0 ++ rest)
    at_reserved =
        moved bytes _ _ _
          (From-append bytes (cursor + 4 + (length e.name + 1) + 4) (to_le_bytes e.len) _ at_len)
          (omega arith)

    pub at_rest : From bytes (cursor + length e.name + 17) rest
    at_rest =
        moved bytes _ _ _
          (From-append bytes (cursor + 4 + (length e.name + 1) + 8) (to_le_bytes 0) _ at_reserved)
          (omega arith)

    guard0 : (length e.name + 1 == 0 || ltb end (cursor + 4 + (length e.name + 1) + 12)) ≡ false
    guard0 = ground (arith, room)

    guard1 : leb (2 ^ 64) (e.offset + e.len) ≡ false
    guard1 = ground (arith, w.offset_fits, w.len_fits)

    guard2 : ltb (length bytes) (e.offset + e.len) ≡ false
    guard2 = ground (arith, w.inside)

    next : cursor + 4 + (length e.name + 1) + 12 ≡ cursor + length e.name + 17
    next = omega arith

    pub read_entry-written :
        read_entry from_utf8_lossy bytes end cursor ≡ ok (e, cursor + length e.name + 17)
    unfolding read_entry
    read_entry-written =
        bind-ok _ _ (read_u32_at-written bytes cursor (length e.name + 1) _ w.name_fits h) (
          bind-ok _ _
            (passes (length e.name + 1 == 0 || ltb end (cursor + 4 + (length e.name + 1) + 12))
              guard0)
            (bind-ok _ _
              (ap or_panic (
                slice-written bytes (cursor + 4) (cursor + 4 + (length e.name + 1))
                  (e.name ++ 0 ∷ []) _ at_name (ap (λ n. cursor + 4 + n) (sym named_len))))
              (bind-ok _ _ (read_u32_at-written bytes _ e.offset _ w.offset_fits at_offset) (
                bind-ok _ _ (read_u32_at-written bytes _ e.len _ w.len_fits at_len) (
                  bind-ok _ _ (read_u32_at-written bytes _ 0 _ (omega arith) at_reserved) (
                    rw (reads_name e w same) (
                      bind-ok _ _ (passes (is_empty e.name) w.named) (
                        bind-ok _ _ (passes (leb (2 ^ 64) (e.offset + e.len)) guard1) (
                          bind-ok _ _ (passes (ltb (length bytes) (e.offset + e.len)) guard2)
                            (ap (λ c. ok (e, c)) next))))))))))
