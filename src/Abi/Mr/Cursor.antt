-- ===== src/Abi/Mr/Cursor.antt =====
-- The cursor of crates/vmrp-abi/src/mr.rs: its reads, each of which checks what remains.
use vmrp_rust.Prelude.{
  ℕ, ◌+◌, ◌-◌, Option, none, some, not, Bool, true, false, length, ltb, ◌==◌, if◌then◌else◌,
}
use vmrp_rust.Cpu.Memory.{from_le_bytes32}
use vmrp_rust.Abi.{Bytes, nth, slice, eq_bytes, le_u32}
use vmrp_rust.Abi.Outcome
use vmrp_rust.Abi.Outcome.{Outcome, or_panic}
use vmrp_rust.Abi.Mr.{
  String, truncated, invalid_signature, Parser, pure, content, reject_if, is_negative, ◌>>=◌, ◌>>◌,
}

module _ (bytes : Bytes) where
  abbrev pub remaining : ℕ → ℕ
  remaining pos = length bytes - pos

  -- The position after `count` bytes, if they are there.
  unfoldable pub skip : ℕ → Parser (Unit {0})
  skip count pos =
      if ltb (remaining pos) count then Outcome.err truncated else Outcome.ok (tt, pos + count)

  -- The next bytes as they are.
  unfoldable pub take_raw : ℕ → Parser Bytes
  unfolding slice
  take_raw count pos =
      if ltb (remaining pos) count
      then Outcome.err truncated
      else Outcome.◌>>=◌ (or_panic (slice bytes pos (pos + count)))
          (λ raw. Outcome.ok (raw, pos + count))

  abbrev pub compare_with : Bytes → Bytes → Parser (Unit {0})
  compare_with expected found pos =
      if not (eq_bytes found expected) then Outcome.err invalid_signature else Outcome.ok (tt, pos)

  unfoldable pub expect_bytes : Bytes → Parser (Unit {0})
  unfolding take_raw
  expect_bytes expected = take_raw (length expected) >>= compare_with expected

  unfoldable pub read_u8 : Parser ℕ
  read_u8 pos =
      if ltb (remaining pos) 1 then Outcome.err truncated else Outcome.ok (nth bytes pos, pos + 1)

  -- `u32::from_le_bytes` or `u32::from_be_bytes` of the next four bytes.
  abbrev pub word_at : Bool → ℕ → ℕ
  word_at true pos = le_u32 bytes pos
  word_at false pos =
      from_le_bytes32 (nth bytes (pos + 3)) (nth bytes (pos + 2)) (nth bytes (pos + 1))
        (nth bytes pos)

  module _ (little_endian : Bool) where
    unfoldable pub read_u32 : Parser ℕ
    read_u32 pos =
        if ltb (remaining pos) 4
        then Outcome.err truncated
        else Outcome.ok (word_at little_endian pos, pos + 4)

    -- `read_i32` and the test for a negative count that follows it.
    unfoldable pub read_count : Parser ℕ
    unfolding read_u32
    read_count = do v ← read_u32; reject_if (is_negative v); pure v

    -- The rest of `read_string`, once the size is read.
    abbrev pub read_content : (Bytes → String) → ℕ → Parser (Option String)
    read_content from_utf8_lossy size =
        if size == 0
        then pure none
        else take_raw size >>= λ raw. pure (some (from_utf8_lossy (content raw)))

    unfoldable pub read_string : (Bytes → String) → Parser (Option String)
    unfolding read_u32 take_raw
    read_string from_utf8_lossy = read_u32 >>= read_content from_utf8_lossy
