-- ===== src/Abi/Mr/Chunk.antt =====
-- `MrChunk::from_bytes` (crates/vmrp-abi/src/mr.rs) on any bytes.
use vmrp_rust.Prelude.{ℕ, suc, ◌≤◌, ◌≡◌, ◌⊎◌, Bool, length}
use vmrp_rust.Abi.{Bytes}
use vmrp_rust.Abi.Outcome
use vmrp_rust.Abi.Outcome.{Outcome}
use vmrp_rust.Abi.Mr.{String, MrChunk}
use vmrp_rust.Abi.Mr.Parse.{parse_function}
use vmrp_rust.Abi.Mr.Ends.{Ends}

-- A chunk that was read: a version in range, a size of numbers that was tried, and a main function
-- that takes all the bytes from a place after the header on.
pub record IsChunk (can_allocate : ℕ → Bool) (from_utf8_lossy : Bytes → String) (bytes : Bytes)
    (c : MrChunk) : Type 0 where
  pub version_above : 0x50 ≤ c.header.version
  pub version_below : c.header.version ≤ 0x80
  pub sized : (c.header.number_size ≡ 8) ⊎ (c.header.number_size ≡ 4)
  pub start : ℕ
  pub after_header : 6 ≤ start
  pub main_reads :
      parse_function from_utf8_lossy bytes c.header.little_endian c.header.number_size can_allocate
        (suc (length bytes))
        start
      ≡ Outcome.ok (c.main, length bytes)

-- What a header holds.
abbrev HeaderRead : Bytes → (ℕ × Bool) × ℕ → Type 0
HeaderRead bytes h = ((0x50 ≤ h.0.0) × (h.0.0 ≤ 0x80)) × (6 ≤ h.1) × (h.1 ≤ length bytes)
