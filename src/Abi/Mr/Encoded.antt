-- ===== src/Abi/Mr/Encoded.antt =====
-- A chunk that is written as the format has it, read back by `MrChunk::from_bytes`
-- (crates/vmrp-abi/src/mr.rs).
use vmrp_rust.Prelude.{
  ℕ, suc, ◌+◌, ◌≤◌, ◌≡◌, ◌∙◌, Bool, Option, List, [], ◌∷◌, ◌++◌, true, false, length, length-append,
  ltb, ◌==◌, ◌!=◌, ◌||◌, arith, refl, ap, sym,
}
use vmrp_rust.Abi.{Bytes}
use vmrp_rust.Abi.Outcome
use vmrp_rust.Abi.Outcome.{Outcome}
use vmrp_rust.Abi.Mr.{String, mrp_signature, invalid_format, pure}
use vmrp_rust.Abi.Mr.Cursor.{take_raw, expect_bytes, remaining, read_u8}
use vmrp_rust.Abi.Mr.Parse.{
  parse_function, chunk_of, tried, try_sizes, reject_version, read_header, from_bytes,
}
use vmrp_rust.Abi.Mr.Written.{
  to_bytes, Reads, bind-Reads, pure-Reads, take_raw-Reads, read_u8-Reads,
}
use vmrp_rust.Abi.Mr.RoundTrip.{
  WrittenLocal, WrittenConstant, WrittenFunction, written, WrittenFunctions, none_written,
  and_written, kept, write_all, write_string, write_local, write_constant, count_of, write_lists,
  write_function, write_functions,
}
use vmrp_rust.Abi.Mr.Nested.{depth, depths, IsWritable, parse_function-Reads}

-- The signature, the version, a byte that is 0 for big-endian order, and the main function.
abbrev pub order_byte : Bool → ℕ
order_byte true = 1
order_byte false = 0

abbrev pub write_chunk : ℕ → Bool → WrittenFunction → Bytes
write_chunk version order main =
    mrp_signature ++ (version ∷ order_byte order ∷ write_function order main)

suffix_len : (a b : Bytes) → length b ≤ length (a ++ b)
suffix_len a b = omega (arith, length-append a b)

module _ (order : Bool) where
  children_len :
      (lines : List ℕ) (locals : List WrittenLocal) (upvalues : List (Option String))
      (constants : List WrittenConstant) (code : List ℕ) (child_count : ℕ) (children : Bytes)
      → length children
        ≤ length (write_lists order lines locals upvalues constants code child_count children)
  children_len lines locals upvalues constants code child_count children =
      let t0 : Bytes = to_bytes order (length code) ++ write_all (to_bytes order) code in
      let t1 : Bytes = children ++ t0 in
      let t2 : Bytes = to_bytes order child_count ++ t1 in
      let t3 : Bytes = write_all (write_constant order) constants ++ t2 in
      let t4 : Bytes = to_bytes order (length constants) ++ t3 in
      let t5 : Bytes = write_all (write_string order) upvalues ++ t4 in
      let t6 : Bytes = to_bytes order (length upvalues) ++ t5 in
      let t7 : Bytes = write_all (write_local order) locals ++ t6 in
      let t8 : Bytes = to_bytes order (length locals) ++ t7 in
      let t9 : Bytes = write_all (to_bytes order) lines ++ t8 in
      omega (
        arith,
        length-append children t0,
        suffix_len (to_bytes order child_count) t1,
        suffix_len (write_all (write_constant order) constants) t2,
        suffix_len (to_bytes order (length constants)) t3,
        suffix_len (write_all (write_string order) upvalues) t4,
        suffix_len (to_bytes order (length upvalues)) t5,
        suffix_len (write_all (write_local order) locals) t6,
        suffix_len (to_bytes order (length locals)) t7,
        suffix_len (write_all (to_bytes order) lines) t8,
        suffix_len (to_bytes order (length lines)) t9,
      )

  mutual
    -- A function is no deeper than it has bytes.
    depth-len : (f : WrittenFunction) → depth f ≤ length (write_function order f)
    depth-len
          (written source line_defined nups num_params is_vararg max_stack_size lines locals
            upvalues constants children code) =
        let lists : Bytes =
          write_lists order lines locals upvalues constants code (count_of children)
            (write_functions order children) in
        let bytes_first : Bytes = nups ∷ num_params ∷ is_vararg ∷ max_stack_size ∷ lists in
        omega (
          arith,
          depths-len children,
          children_len lines locals upvalues constants code (count_of children)
              (write_functions order children),
          suffix_len (to_bytes order line_defined) bytes_first,
          suffix_len (write_string order source) (to_bytes order line_defined ++ bytes_first),
        )

    depths-len : (fs : WrittenFunctions) → depths fs ≤ length (write_functions order fs)
    depths-len none_written = omega arith
    depths-len (and_written f fs) = omega (
      arith,
      depth-len f,
      depths-len fs,
      length-append (write_function order f) (write_functions order fs),
    )

append_nil : (xs : Bytes) → xs ++ [] ≡ xs
append_nil [] = refl
append_nil (x ∷ xs) = ap (λ l. x ∷ l) (append_nil xs)

module _ (can_allocate : ℕ → Bool) (from_utf8_lossy : Bytes → String) (version : ℕ) (order : Bool)
    (main : WrittenFunction) (range : (0x50 ≤ version) × (version ≤ 0x80))
    (w : IsWritable can_allocate from_utf8_lossy 8 main) where
  abbrev chunk : Bytes
  chunk = write_chunk version order main

  expect_bytes-Reads : Reads chunk (expect_bytes chunk mrp_signature) mrp_signature tt
  unfolding expect_bytes
  expect_bytes-Reads =
      bind-Reads chunk (take_raw chunk 4) _ mrp_signature [] mrp_signature tt
        (take_raw-Reads chunk mrp_signature) (pure-Reads chunk tt)

  reject_version-Reads : Reads chunk (reject_version from_utf8_lossy chunk version) [] tt
  reject_version-Reads pos rest at = rw (in_range) (pure-Reads chunk tt pos rest at)
    where
      in_range : (ltb 0x80 version || ltb version 0x50) ≡ false
      in_range = ground (arith, range.0, range.1)

  read_order :
      Reads chunk {A = ℕ × Bool} (pure (version, order_byte order != 0)) [] (version, order)
  read_order =
      elim order
        as (λ t. Reads chunk {A = ℕ × Bool} (pure (version, order_byte t != 0)) [] (version, t)) [
          | true ↦ pure-Reads chunk (version, true)
          | false ↦ pure-Reads chunk (version, false)
        ]

  read_header-Reads :
      Reads chunk
        (read_header from_utf8_lossy chunk)
        (mrp_signature ++ (version ∷ order_byte order ∷ []))
        (version, order)
  unfolding read_header
  read_header-Reads =
      bind-Reads chunk (expect_bytes chunk mrp_signature) _ mrp_signature
        (version ∷ order_byte order ∷ []) tt (version, order) expect_bytes-Reads
        (bind-Reads chunk (read_u8 chunk) _ (version ∷ []) (order_byte order ∷ []) version
          (version, order) (read_u8-Reads chunk version)
          (bind-Reads chunk (reject_version from_utf8_lossy chunk version) _ []
            (order_byte order ∷ []) tt (version, order) reject_version-Reads
            (bind-Reads chunk (read_u8 chunk) _ (order_byte order ∷ []) [] (order_byte order)
              (version, order) (read_u8-Reads chunk (order_byte order)) read_order)))

  main_reads :
      parse_function from_utf8_lossy chunk order 8 can_allocate (suc (length chunk)) 6
      ≡ Outcome.ok (kept main, 6 + length (write_function order main))
  main_reads =
      parse_function-Reads can_allocate from_utf8_lossy chunk order 8 (suc (length chunk)) main
        (w, omega (arith, depth-len order main)) 6 []
        (
          sym (append_nil (write_function order main)),
          omega (arith, length-append (write_function order main) []),
        )

  all_read : (remaining chunk (6 + length (write_function order main)) == 0) ≡ true
  all_read = ground arith

  -- A chunk of a version from 0x50 to 0x80, written in either byte order with numbers of 8 bytes, is read
  -- back: the version, the order, the size of numbers, and for each function of the tree its source, its
  -- line, its four bytes, the number of its lines, local variables, upvalues, constants and
  -- instructions, and its nested functions. The local variables and upvalues are with or without names,
  -- the constants nil, numbers or strings, the words of lines and code any. The conditions are that
  -- counts and places fit an i32 and lengths of strings a u32, that the sources are text that the
  -- decoding of UTF-8 leaves as it is, and that the allocator grants the vectors of nested functions.
  pub from_bytes-write_chunk :
      from_bytes from_utf8_lossy (write_chunk version order main) can_allocate
      ≡ Outcome.ok
          (chunk_of from_utf8_lossy (write_chunk version order main) version order 8 (kept main))
  unfolding from_bytes try_sizes
  from_bytes-write_chunk =
      ap
        (λ x. Outcome.◌>>=◌ x (λ h.
          try_sizes from_utf8_lossy chunk can_allocate h.0.0 h.0.1 h.1 (8 ∷ 4 ∷ []) invalid_format))
        (read_header-Reads 0 (write_function order main) (refl, omega arith))
      ∙ ap
          (λ x.
            tried from_utf8_lossy chunk (chunk_of from_utf8_lossy chunk version order 8) x
              (try_sizes from_utf8_lossy chunk can_allocate version order 6 (4 ∷ [])))
          main_reads
      ∙ rw (all_read) refl
