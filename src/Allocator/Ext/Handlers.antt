-- ===== src/Allocator/Ext/Handlers.antt =====
-- crates/vmrp-platform/src/lib.rs: the handlers of malloc, free and realloc, which take their
-- arguments from the registers, put the answer in r0 and return to the guest.
use vmrp_rust.Prelude.{ℕ, min, max, Option, none, some, ◌==◌, ◌!=◌, if◌then◌else◌, bit_and}
use vmrp_rust.Prelude.State.{Stateful, pure, modify, gets, for_range, ◌>>=◌, ◌>>◌}
use vmrp_rust.Word.{add32, not32}
use vmrp_rust.Cpu.Cpsr.{ExecutionMode}
use vmrp_rust.Cpu.Regs
use vmrp_rust.Cpu.Regs.{CpuRegs, lr_index, pc_index}
use vmrp_rust.Cpu.Memory.{MemoryAccessError, MemoryBus}
use vmrp_rust.Allocator.Ext.{
  Host, alloc_ext, free_ext, ext_requested_len, sync_memory_manager_cells, of_write,
}

-- `regs.set_reg(index, value)` at an index below 16.
abbrev pub put : ℕ → ℕ → CpuRegs → CpuRegs
put index value r = record r { regs = λ i. if i == index then value else r.regs i }

-- `return_to_lr`: bit 0 of the link register picks the instruction set.
unfoldable pub return_to_lr : {M : Type 0} → Host M → Host M
unfolding Regs.set_execution_mode
return_to_lr h =
    let lr = h.regs.regs lr_index in
    record h {
      regs = put pc_index (bit_and lr (not32 1)) (
          Regs.set_execution_mode h.regs
            (if bit_and lr 1 != 0 then ExecutionMode.thumb else ExecutionMode.arm));
    }

abbrev pub unwrap_or : ℕ → Option ℕ → ℕ
unwrap_or d none = d
unwrap_or d (some a) = a

module _ {M : Type 0} ⦃bus : MemoryBus M⦄ where
  -- The end of the three handlers.
  abbrev pub answer : ℕ → Stateful (Host M) MemoryAccessError (Unit {0})
  answer out = do
    modify (λ h. record h { regs = put 0 out h.regs })
    sync_memory_manager_cells
    modify return_to_lr

  unfoldable pub handle_mr_malloc : Stateful (Host M) MemoryAccessError (Unit {0})
  unfolding alloc_ext sync_memory_manager_cells return_to_lr
  handle_mr_malloc = do
    r0 ← gets (λ h. h.regs.regs 0)
    out ← alloc_ext (max r0 1)
    answer (unwrap_or 0 out)

  unfoldable pub handle_mr_free : Stateful (Host M) MemoryAccessError (Unit {0})
  unfolding free_ext sync_memory_manager_cells return_to_lr
  handle_mr_free = do ptr ← gets (λ h. h.regs.regs 0); modify (free_ext ptr); answer 0

  abbrev pub copy_byte : ℕ → ℕ → ℕ → Stateful (Host M) MemoryAccessError (Unit {0})
  copy_byte old_ptr new_ptr offset = do
    byte ← λ h. (bus.read8 h.memory (add32 old_ptr offset), h)
    λ h. of_write h (bus.write8 h.memory (add32 new_ptr offset) byte)

  -- A new block is had: the bytes of the old one are copied and the old one is freed.
  abbrev pub move_to : ℕ → ℕ → Option ℕ → Stateful (Host M) MemoryAccessError ℕ
  move_to old_ptr new_len none = pure 0
  move_to old_ptr new_len (some new_ptr) = do
    old_len ← ext_requested_len old_ptr
    for_range 0 (min old_len new_len) (copy_byte old_ptr new_ptr)
    modify (free_ext old_ptr)
    pure new_ptr

  unfoldable pub realloc : ℕ → ℕ → Stateful (Host M) MemoryAccessError ℕ
  unfolding alloc_ext free_ext ext_requested_len
  realloc old_ptr new_len =
      if old_ptr == 0
      then if new_len == 0 then pure 0 else (do out ← alloc_ext new_len; pure (unwrap_or 0 out))
      else if new_len == 0
      then (do modify (free_ext old_ptr); pure 0)
      else alloc_ext new_len >>= move_to old_ptr new_len

  unfoldable pub handle_mr_realloc : Stateful (Host M) MemoryAccessError (Unit {0})
  unfolding realloc sync_memory_manager_cells return_to_lr
  handle_mr_realloc = do
    old_ptr ← gets (λ h. h.regs.regs 0)
    new_len ← gets (λ h. h.regs.regs 1)
    out ← realloc old_ptr new_len
    answer out
