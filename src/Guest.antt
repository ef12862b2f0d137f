-- ===== src/Guest.antt =====
-- crates/vmrp-platform/src/lib.rs: the services of the host that work on the guest's memory alone
-- (memcpy, memmove, memset, memcmp, memchr, strlen, strncpy, strncat), with their arguments in the registers.
pub mod Moved
mod Tests
use vmrp_rust.Prelude.{
  ℕ, zero, suc, ◌+◌, ◌-◌, ◌%◌, ◌^◌, List, [], ◌∷◌, Bool, true, false, ◌==◌, ◌&&◌, ◌/◌,
  if◌then◌else◌,
}
use vmrp_rust.Prelude.State.{Stateful, pure, modify, gets, for_range, ◌>>=◌, ◌>>◌}
use vmrp_rust.Word.{add32, sub32}
use vmrp_rust.Cpu.Memory.{MemoryAccessError, MemoryBus}
use vmrp_rust.Allocator.Ext.{Host, of_write}
use vmrp_rust.Allocator.Ext.Handlers.{put, return_to_lr, copy_byte}

-- A register below 16.
abbrev pub arg : {M : Type 0} → ℕ → Stateful (Host M) MemoryAccessError ℕ
arg index = gets (λ h. h.regs.regs index)

-- The answer in r0, and the return to the guest.
unfoldable pub return_with : {M : Type 0} → ℕ → Stateful (Host M) MemoryAccessError (Unit {0})
unfolding return_to_lr
return_with out = modify (λ h. return_to_lr (record h { regs = put 0 out h.regs }))

module _ {M : Type 0} ⦃bus : MemoryBus M⦄ where
  abbrev pub load8 : ℕ → Stateful (Host M) MemoryAccessError ℕ
  load8 addr h = (bus.read8 h.memory addr, h)

  abbrev pub store8 : ℕ → ℕ → Stateful (Host M) MemoryAccessError (Unit {0})
  store8 addr value h = of_write h (bus.write8 h.memory addr value)

  unfoldable pub handle_memcpy : Stateful (Host M) MemoryAccessError (Unit {0})
  unfolding return_with
  handle_memcpy = do
    dst ← arg 0
    src ← arg 1
    len ← arg 2
    for_range 0 len (copy_byte src dst)
    return_with dst

  -- The bytes from `src + offset` on.
  unfoldable pub read_all : ℕ → ℕ → ℕ → Stateful (Host M) MemoryAccessError (List ℕ)
  read_all src offset zero = pure []
  read_all src offset (suc count) = do
    byte ← load8 (add32 src offset)
    bytes ← read_all src (suc offset) count
    pure (byte ∷ bytes)

  unfoldable pub write_all : ℕ → ℕ → List ℕ → Stateful (Host M) MemoryAccessError (Unit {0})
  write_all dst index [] = pure tt
  write_all dst index (byte ∷ bytes) = do
    store8 (add32 dst (index % 2 ^ 32)) byte
    write_all dst (suc index) bytes

  unfoldable pub handle_memmove : Stateful (Host M) MemoryAccessError (Unit {0})
  unfolding return_with read_all write_all
  handle_memmove = do
    dst ← arg 0
    src ← arg 1
    len ← arg 2
    bytes ← read_all src 0 len
    write_all dst 0 bytes
    return_with dst

  unfoldable pub handle_memset : Stateful (Host M) MemoryAccessError (Unit {0})
  unfolding return_with
  handle_memset = do
    dst ← arg 0
    value ← arg 1
    len ← arg 2
    for_range 0 len (λ offset. store8 (add32 dst offset) (value % 2 ^ 8))
    return_with dst

  -- The difference of the first two bytes that differ, as the bit pattern of an i32.
  unfoldable pub compare_from : ℕ → ℕ → ℕ → ℕ → Stateful (Host M) MemoryAccessError ℕ
  compare_from left right offset zero = pure 0
  compare_from left right offset (suc count) = do
    a ← load8 (add32 left offset)
    b ← load8 (add32 right offset)
    let rest = compare_from left right (suc offset) count in
        if a == b then rest else pure (sub32 a b)

  unfoldable pub handle_memcmp : Stateful (Host M) MemoryAccessError (Unit {0})
  unfolding return_with compare_from
  handle_memcmp = do
    left ← arg 0
    right ← arg 1
    len ← arg 2
    ret ← compare_from left right 0 len
    return_with ret

  -- The address of the first byte that is the target, or 0.
  unfoldable pub find_from : ℕ → ℕ → ℕ → ℕ → Stateful (Host M) MemoryAccessError ℕ
  find_from ptr target offset zero = pure 0
  find_from ptr target offset (suc count) = do
    byte ← load8 (add32 ptr offset)
    let rest = find_from ptr target (suc offset) count in
        if byte == target then pure (add32 ptr offset) else rest

  unfoldable pub handle_memchr : Stateful (Host M) MemoryAccessError (Unit {0})
  unfolding return_with find_from
  handle_memchr = do
    ptr ← arg 0
    target ← arg 1
    len ← arg 2
    found ← find_from ptr (target % 2 ^ 8) 0 len
    return_with found

  -- `guest_strlen`, from a length on and with a count of bytes left to try.
  unfoldable pub strlen_from : ℕ → ℕ → ℕ → Stateful (Host M) MemoryAccessError ℕ
  strlen_from addr len zero = pure len
  strlen_from addr len (suc left) = do
    byte ← load8 (add32 addr len)
    let rest = strlen_from addr (suc len) left in if byte == 0 then pure len else rest

  unfoldable pub handle_strlen : Stateful (Host M) MemoryAccessError (Unit {0})
  unfolding return_with strlen_from
  handle_strlen = do addr ← arg 0; len ← strlen_from addr 0 4096; return_with len

  -- The loop of strncpy: once a zero was copied, zeros follow.
  unfoldable pub pad_from : ℕ → ℕ → ℕ → ℕ → Bool → Stateful (Host M) MemoryAccessError (Unit {0})
  pad_from dst src offset zero terminated = pure tt
  pad_from dst src offset (suc left) true = do
    store8 (add32 dst offset) 0
    pad_from dst src (suc offset) left true
  pad_from dst src offset (suc left) false = do
    byte ← load8 (add32 src offset)
    store8 (add32 dst offset) byte
    pad_from dst src (suc offset) left (byte == 0)

  unfoldable pub handle_strncpy : Stateful (Host M) MemoryAccessError (Unit {0})
  unfolding return_with pad_from
  handle_strncpy = do
    dst ← arg 0
    src ← arg 1
    len ← arg 2
    pad_from dst src 0 len false
    return_with dst

  -- The loop of strncat: the count of bytes before a zero, or all that are allowed, each copied.
  unfoldable pub append_from : ℕ → ℕ → ℕ → ℕ → Stateful (Host M) MemoryAccessError ℕ
  append_from end src copied zero = pure copied
  append_from end src copied (suc left) = do
    byte ← load8 (add32 src copied)
    let rest = append_from end src (suc copied) left in
        if byte == 0 then pure copied else (store8 (add32 end copied) byte >> rest)

  unfoldable pub handle_strncat : Stateful (Host M) MemoryAccessError (Unit {0})
  unfolding return_with strlen_from append_from
  handle_strncat = do
    dst ← arg 0
    src ← arg 1
    max_len ← arg 2
    dst_len ← strlen_from dst 0 4096
    copied ← append_from (add32 dst dst_len) src 0 max_len
    store8 (add32 (add32 dst dst_len) copied) 0
    return_with dst

  -- `guest_wstrlen`, from a length on: `left` pairs of bytes may still be tried.
  unfoldable pub wstrlen_from : ℕ → ℕ → ℕ → Stateful (Host M) MemoryAccessError ℕ
  wstrlen_from addr len zero = pure len
  wstrlen_from addr len (suc left) = do
    hi ← load8 (add32 addr len)
    lo ← load8 (add32 (add32 addr len) 1)
    let rest = wstrlen_from addr (len + 2) left in if (hi == 0) && (lo == 0) then pure len else rest

  -- The pairs that fit in `max_bytes`.
  unfoldable pub guest_wstrlen : ℕ → ℕ → Stateful (Host M) MemoryAccessError ℕ
  unfolding wstrlen_from
  guest_wstrlen addr max_bytes = if addr == 0 then pure 0 else wstrlen_from addr 0 (max_bytes / 2)
