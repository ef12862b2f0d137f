-- ===== src/Abi/Mr/Parse.antt =====
-- `parse_function` and `MrChunk::from_bytes` of crates/vmrp-abi/src/mr.rs.
use vmrp_rust.Prelude.{
  ℕ, zero, suc, ◌*◌, List, [], ◌∷◌, ◌||◌, Bool, true, length, ltb, ◌==◌, ◌!=◌, if◌then◌else◌,
}
use vmrp_rust.Abi.{Bytes}
use vmrp_rust.Abi.Outcome
use vmrp_rust.Abi.Outcome.{Outcome}
use vmrp_rust.Abi.Mr.{
  String, MrFunction, function, MrChunkError, unsupported_version, invalid_format, MrChunk, Parser,
  pure, reject_if, is_negative, times, collect, mrp_signature, ◌>>=◌, ◌>>◌,
}
use vmrp_rust.Abi.Mr.Cursor.{
  skip, expect_bytes, read_u8, read_u32, read_count, read_string, remaining,
}

module _ (from_utf8_lossy : Bytes → String) (bytes : Bytes) (little_endian : Bool)
    (number_size : ℕ) where
  -- A local variable: its name and where it starts and ends, neither of them negative.
  unfoldable pub skip_local : Parser (Unit {0})
  unfolding read_string read_u32
  skip_local = do
    _ ← read_string bytes little_endian from_utf8_lossy
    start_pc ← read_u32 bytes little_endian
    end_pc ← read_u32 bytes little_endian
    reject_if (is_negative start_pc || is_negative end_pc)

  unfoldable pub skip_upvalue : Parser (Unit {0})
  unfolding read_string
  skip_upvalue = do _ ← read_string bytes little_endian from_utf8_lossy; pure tt

  -- A constant, by its tag: nil, a number or a string.
  abbrev pub skip_tagged : ℕ → Parser (Unit {0})
  skip_tagged tag =
      if tag == 0
      then pure tt
      else if tag == 3
      then skip bytes number_size
      else if tag == 4
      then (read_string bytes little_endian from_utf8_lossy >>= λ _. pure tt)
      else reject_if true

  unfoldable pub skip_constant : Parser (Unit {0})
  unfolding read_u8 skip read_string
  skip_constant = read_u8 bytes >>= skip_tagged

  -- `Vec::with_capacity(capacity)` of functions: when the allocator refuses so much, the program ends
  -- there, with a panic or an abort.
  unfoldable pub with_capacity : (ℕ → Bool) → ℕ → Parser (Unit {0})
  with_capacity can_allocate capacity pos =
      if can_allocate capacity then Outcome.ok (tt, pos) else Outcome.panicked

  -- Fuel bounds the depth of nested functions.
  unfoldable pub parse_function : (ℕ → Bool) → ℕ → Parser MrFunction
  unfolding with_capacity read_string read_count read_u8 skip skip_local skip_upvalue skip_constant
  parse_function can_allocate zero = λ pos. Outcome.out_of_fuel
  parse_function can_allocate (suc fuel) = do
    source ← read_string bytes little_endian from_utf8_lossy
    line_defined ← read_count bytes little_endian
    nups ← read_u8 bytes
    num_params ← read_u8 bytes
    is_vararg ← read_u8 bytes
    max_stack_size ← read_u8 bytes
    line_count ← read_count bytes little_endian
    skip bytes (line_count * 4)
    local_count ← read_count bytes little_endian
    times local_count skip_local
    upvalue_count ← read_count bytes little_endian
    times upvalue_count skip_upvalue
    constant_count ← read_count bytes little_endian
    times constant_count skip_constant
    child_count ← read_count bytes little_endian
    with_capacity can_allocate child_count
    children ← collect child_count (parse_function can_allocate fuel)
    code_count ← read_count bytes little_endian
    skip bytes (code_count * 4)
    pure (
        function source line_defined nups num_params is_vararg max_stack_size line_count local_count
          upvalue_count constant_count code_count children)

module _ (from_utf8_lossy : Bytes → String) (bytes : Bytes) where
  abbrev pub chunk_of : ℕ → Bool → ℕ → MrFunction → MrChunk
  chunk_of version little_endian number_size main = record {
    header = record { version = version; little_endian = little_endian; number_size = number_size };
    main = main;
  }

  -- The answer of a try, or its error as the last one.
  abbrev pub tried :
      (MrFunction → MrChunk)
      → Outcome MrChunkError (MrFunction × ℕ)
      → (MrChunkError → Outcome MrChunkError MrChunk)
      → Outcome MrChunkError MrChunk
  tried chunk (Outcome.ok (main, pos)) others =
      if remaining bytes pos == 0 then Outcome.ok (chunk main) else others invalid_format
  tried chunk (Outcome.err e) others = others e
  tried chunk Outcome.panicked others = Outcome.panicked
  tried chunk Outcome.out_of_fuel others = Outcome.out_of_fuel

  -- The `for number_size in [8, 4]` loop.
  unfoldable pub try_sizes :
      (ℕ → Bool) → ℕ → Bool → ℕ → List ℕ → MrChunkError → Outcome MrChunkError MrChunk
  unfolding parse_function
  try_sizes can_allocate version little_endian header_end [] last_error = Outcome.err last_error
  try_sizes can_allocate version little_endian header_end (number_size ∷ sizes) last_error =
      tried (chunk_of version little_endian number_size)
        (parse_function from_utf8_lossy bytes little_endian number_size can_allocate
          (suc (length bytes)) header_end)
        (try_sizes can_allocate version little_endian header_end sizes)

  abbrev pub reject_version : ℕ → Parser (Unit {0})
  reject_version version pos =
      if ltb 0x80 version || ltb version 0x50
      then Outcome.err (unsupported_version version)
      else Outcome.ok (tt, pos)

  -- The header: the version and the byte order.
  unfoldable pub read_header : Parser (ℕ × Bool)
  unfolding expect_bytes read_u8
  read_header = do
    expect_bytes bytes mrp_signature
    version ← read_u8 bytes
    reject_version version
    order ← read_u8 bytes
    pure (version, order != 0)

  unfoldable pub from_bytes : (ℕ → Bool) → Outcome MrChunkError MrChunk
  unfolding read_header try_sizes
  from_bytes can_allocate =
      Outcome.◌>>=◌ (read_header 0)
        (λ h. try_sizes can_allocate h.0.0 h.0.1 h.1 (8 ∷ 4 ∷ []) invalid_format)
