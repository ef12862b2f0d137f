-- ===== src/Allocator/Live/Sequences.antt =====
-- The handlers of malloc, free and realloc (crates/vmrp-platform/src/lib.rs), called one after the
-- other by a guest that does as it likes in between.
use vmrp_rust.Prelude.{
  ℕ, ◌-◌, ◌^◌, ◌≤◌, max, min, Option, none, some, List, [], ◌∷◌, All, ◌==◌, arith,
}
use vmrp_rust.Prelude.Result.{Result}
use vmrp_rust.Prelude.State.{Stateful, and_then, pure, modify, for_range, ◌>>◌}
use vmrp_rust.Prelude.Preserves.{
  Preserves, and_then-Preserves, bind-Preserves, for_range-Preserves, if-Preserves,
}
use vmrp_rust.Word.{add32}
use vmrp_rust.Cpu.Regs.{CpuRegs}
use vmrp_rust.Cpu.Memory.{MemoryAccessError, MemoryBus}
use vmrp_rust.Allocator.Ext.{
  Host, of_write, write32, alloc_ext, free_ext, ext_requested_len, sync_memory_manager_cells,
  reset_alloc, cell,
}
use vmrp_rust.Allocator.Ext.Handlers
use vmrp_rust.Allocator.Ext.Handlers.{
  put, unwrap_or, return_to_lr, answer, copy_byte, move_to, handle_mr_malloc, handle_mr_free,
  handle_mr_realloc,
}
use vmrp_rust.Allocator.Live.Calls.{LiveHost, alloc_ext-IsLive, free_ext-IsLive}

-- A call of the guest, with the registers and the memory that it makes it with.
pub data Call (M : Type 0) : Type 0 where
  malloc : CpuRegs → M → Call M
  free : CpuRegs → M → Call M
  realloc : CpuRegs → M → Call M

-- A size that the rounding of `alloc_raw` does not wrap.
abbrev pub IsSound : {M : Type 0} → Call M → Type 0
IsSound (malloc r m) = r.regs 0 ≤ 2 ^ 32 - 12
IsSound (free r m) = Unit
IsSound (realloc r m) = r.regs 1 ≤ 2 ^ 32 - 12

module _ {M : Type 0} ⦃bus : MemoryBus M⦄ where
  write32-Preserves :
      (addr value : ℕ)
      → Preserves {S = Host M} {E = MemoryAccessError} LiveHost (write32 addr value)
  unfolding write32
  write32-Preserves addr value h l = l

  then_write :
      (addr value : ℕ) (next : Stateful (Host M) MemoryAccessError (Unit {0}))
      → Preserves LiveHost next
      → Preserves LiveHost (write32 addr value >> next)
  then_write addr value next h =
      bind-Preserves LiveHost (write32 addr value) (λ _. next) (write32-Preserves addr value)
        (λ _. h)

  sync-Preserves : Preserves {S = Host M} {E = MemoryAccessError} LiveHost sync_memory_manager_cells
  unfolding sync_memory_manager_cells
  sync-Preserves h =
      then_write _ _ _
        (then_write _ _ _ (
          then_write _ _ _ (
            then_write _ _ _ (
              then_write _ _ _
                (write32-Preserves (cell h.mr_table_addr 0x14) h.heap.memory_manager_peak_used)))))
        h

  answer-Preserves :
      (out : ℕ) → Preserves {S = Host M} {E = MemoryAccessError} LiveHost (answer out)
  unfolding return_to_lr
  answer-Preserves out h l =
      and_then-Preserves LiveHost (sync_memory_manager_cells (record h { regs = put 0 out h.regs }))
        (λ _. modify return_to_lr) (sync-Preserves _ l) (λ _ s p. p)

  free-Preserves :
      (ptr : ℕ) → Preserves {S = Host M} {E = MemoryAccessError} LiveHost (modify (free_ext ptr))
  free-Preserves ptr h l = free_ext-IsLive ptr h l

  copied :
      (ptr offset : ℕ) (x : Result MemoryAccessError ℕ × Host M)
      → LiveHost (x.1)
      → LiveHost
          ((and_then x (λ byte h. of_write h (bus.write8 h.memory (add32 ptr offset) byte))).1)
  copied ptr offset (Result.ok byte, h) l = l
  copied ptr offset (Result.err e, h) l = l

  move_to-Preserves :
      (old_ptr new_len : ℕ) (out : Option ℕ)
      → Preserves {S = Host M} {E = MemoryAccessError} LiveHost (move_to old_ptr new_len out)
  unfolding ext_requested_len
  move_to-Preserves old_ptr new_len none h l = l
  move_to-Preserves old_ptr new_len (some new_ptr) h l =
      and_then-Preserves LiveHost (ext_requested_len old_ptr h) _ l (λ old_len.
        bind-Preserves LiveHost (for_range 0 (min old_len new_len) (copy_byte old_ptr new_ptr)) _
          (for_range-Preserves LiveHost 0 (min old_len new_len) (copy_byte old_ptr new_ptr)
            (λ i h' l'. copied new_ptr i (bus.read8 h'.memory (add32 old_ptr i), h') l'))
          (λ _ h' l'. free_ext-IsLive old_ptr h' l'))

  realloc-Preserves :
      (old_ptr new_len : ℕ)
      → new_len ≤ 2 ^ 32 - 12
      → Preserves {S = Host M} {E = MemoryAccessError} LiveHost (Handlers.realloc old_ptr new_len)
  unfolding Handlers.realloc
  realloc-Preserves old_ptr new_len small h l =
      if-Preserves LiveHost (old_ptr == 0) _ _
        (if-Preserves LiveHost (new_len == 0) _ _ (λ _ l. l)
          (λ h l.
            and_then-Preserves LiveHost (alloc_ext new_len h) (λ out. pure (unwrap_or 0 out))
              (alloc_ext-IsLive h l new_len small) (λ _ _ l. l)))
        (if-Preserves LiveHost (new_len == 0) _ _ (λ h l. free_ext-IsLive old_ptr h l)
          (λ h l.
            and_then-Preserves LiveHost (alloc_ext new_len h) (move_to old_ptr new_len)
              (alloc_ext-IsLive h l new_len small) (move_to-Preserves old_ptr new_len)))
        h l

  -- What the guest sets up before a call.
  abbrev pub entered : CpuRegs → M → Host M → Host M
  entered r m h = record h { regs = r; memory = m }

  -- The host after a call, whether it returned or failed.
  abbrev pub perform : Call M → Host M → Host M
  perform (malloc r m) h = (handle_mr_malloc (entered r m h)).1
  perform (free r m) h = (handle_mr_free (entered r m h)).1
  perform (realloc r m) h = (handle_mr_realloc (entered r m h)).1

  abbrev pub perform_all : List (Call M) → Host M → Host M
  perform_all [] h = h
  perform_all (call ∷ calls) h = perform_all calls (perform call h)

  perform-IsLive :
      (call : Call M) → IsSound call → (h : Host M) → LiveHost h → LiveHost (perform call h)
  unfolding handle_mr_malloc handle_mr_free handle_mr_realloc
  perform-IsLive (malloc r m) small h l =
      and_then-Preserves LiveHost (alloc_ext (max (r.regs 0) 1) (entered r m h))
        (λ out. answer (unwrap_or 0 out))
        (alloc_ext-IsLive (entered r m h) l (max (r.regs 0) 1) (omega (arith, small)))
        (λ out. answer-Preserves (unwrap_or 0 out))
  perform-IsLive (free r m) small h l =
      answer-Preserves 0 (free_ext (r.regs 0) (entered r m h))
        (free_ext-IsLive (r.regs 0) (entered r m h) l)
  perform-IsLive (realloc r m) small h l =
      and_then-Preserves LiveHost (Handlers.realloc (r.regs 0) (r.regs 1) (entered r m h)) answer
        (realloc-Preserves (r.regs 0) (r.regs 1) small (entered r m h) l) answer-Preserves

  perform_all-IsLive :
      (calls : List (Call M))
      → All IsSound calls
      → (h : Host M) → LiveHost h
      → LiveHost (perform_all calls h)
  perform_all-IsLive [] s h l = l
  perform_all-IsLive (call ∷ calls) s h l =
      perform_all-IsLive calls s.1 (perform call h) (perform-IsLive call s.0 h l)

  -- After a reset and any sequence of calls of malloc, free and realloc, failed ones included, with
  -- any registers and memory at each call but for sizes of more than 2 ^ 32 - 12, the free blocks and
  -- the live allocations lie in the pool, do not meet, and every allocation has room for its bytes.
  pub reset_alloc-IsLive :
      (calls : List (Call M)) (h : Host M)
      → All IsSound calls
      → LiveHost (perform_all calls (reset_alloc h).1)
  unfolding reset_alloc
  reset_alloc-IsLive calls h s = perform_all-IsLive calls s (reset_alloc h).1 (
      sync-Preserves _ (record { spaced = (omega arith, omega arith, omega arith); all_held = tt }))
