-- ===== src/Cpu/Execute/ThumbTransfer.antt =====
-- crates/vmrp-cpu/src/execute.rs: Thumb loads and stores.
use vmrp_rust.Prelude.{
  ℕ, zero, suc, ◌+◌, ◌%◌, ◌^◌, bit_and, Bool, true, false, if◌then◌else◌, List, [], ◌∷◌, ◌++◌,
}
use mathlib.Core.List.{reverse}
use vmrp_rust.Word.{add32, sub32, not32, bit}
use vmrp_rust.Cpu.Memory.{MemoryBus}
use vmrp_rust.Cpu.Machine.{Exec, pure, ◌>>=◌, ◌>>◌, reg, read8, read32, write8, write32}
use vmrp_rust.Cpu.Execute.Common.{advance, write_reg, exchange, mask_registers}

module _ {M : Type 0} ⦃bus : MemoryBus M⦄ where
  unfoldable pub execute_thumb_literal_load : ℕ → ℕ → ℕ → Exec M (Unit {0})
  unfolding read32 write_reg advance
  execute_thumb_literal_load pc rd offset = do
    let base = bit_and (add32 pc 4) (not32 3)
    value ← read32 (add32 base offset)
    write_reg rd value
    advance (add32 pc 2)

  -- A load or a store of `rd` at an address, by the width.
  unfoldable pub thumb_access : Bool → Bool → ℕ → ℕ → Exec M (Unit {0})
  unfolding read8 read32 write_reg reg write8 write32
  thumb_access true byte rd addr = do
    value ← (if byte then read8 addr else read32 addr)
    write_reg rd value
  thumb_access false byte rd addr = do
    value ← reg rd
    if byte then write8 addr (value % 2 ^ 8) else write32 addr value

  unfoldable pub execute_thumb_load_store_register_offset :
      ℕ → Bool → Bool → ℕ → ℕ → ℕ → Exec M (Unit {0})
  unfolding reg thumb_access advance
  execute_thumb_load_store_register_offset pc load byte offset base rd = do
    base_value ← reg base
    offset_value ← reg offset
    thumb_access load byte rd (add32 base_value offset_value)
    advance (add32 pc 2)

  unfoldable pub execute_thumb_load_store_sp_relative : ℕ → Bool → ℕ → ℕ → Exec M (Unit {0})
  unfolding reg thumb_access advance
  execute_thumb_load_store_sp_relative pc load rd offset = do
    sp ← reg 13
    thumb_access load false rd (add32 sp offset)
    advance (add32 pc 2)

  -- The byte and the word forms.
  unfoldable pub execute_thumb_load_store_immediate :
      ℕ → Bool → Bool → ℕ → ℕ → ℕ → Exec M (Unit {0})
  unfolding reg thumb_access advance
  execute_thumb_load_store_immediate pc byte load base rd offset = do
    base_value ← reg base
    thumb_access load byte rd (add32 base_value offset)
    advance (add32 pc 2)

  -- One register of the loops over the eight low registers.
  unfoldable pub load_store_register : Bool → ℕ → ℕ → Exec M (Unit {0})
  unfolding read32 write_reg reg write32
  load_store_register true index addr = do value ← read32 addr; write_reg index value
  load_store_register false index addr = do value ← reg index; write32 addr value

  -- The loop, with `n` registers to go from `index` on; it answers the address after it.
  unfoldable pub load_store_multiple : Bool → ℕ → ℕ → ℕ → ℕ → Exec M ℕ
  unfolding load_store_register
  load_store_multiple load zero index register_mask addr = pure addr
  load_store_multiple load (suc n) index register_mask addr = do
    addr' ←
        (if bit register_mask index
          then (do load_store_register load index addr; pure (add32 addr 4))
          else pure addr)
    load_store_multiple load n (index + 1) register_mask addr'

  unfoldable pub execute_thumb_load_store_multiple : ℕ → Bool → ℕ → ℕ → Exec M (Unit {0})
  unfolding reg load_store_multiple write_reg advance
  execute_thumb_load_store_multiple pc load base register_mask = do
    start ← reg base
    addr ← load_store_multiple load 8 0 register_mask start
    write_reg base addr
    advance (add32 pc 2)

  unfoldable pub execute_thumb_pop : ℕ → ℕ → Bool → Exec M (Unit {0})
  unfolding reg load_store_multiple read32 write_reg exchange advance
  execute_thumb_pop pc register_mask include_pc = do
    start ← reg 13
    sp ← load_store_multiple true 8 0 register_mask start
    if include_pc
        then (do target ← read32 sp; write_reg 13 (add32 sp 4); exchange target)
        else (do write_reg 13 sp; advance (add32 pc 2))

  -- The loop over the registers from the last to the first; it answers the new sp.
  unfoldable pub push_registers : List ℕ → ℕ → Exec M ℕ
  unfolding reg write32
  push_registers [] sp = pure sp
  push_registers (index ∷ registers) sp = do
    let sp' = sub32 sp 4
    value ← reg index
    write32 sp' value
    push_registers registers sp'

  unfoldable pub execute_thumb_push : ℕ → ℕ → Bool → Exec M (Unit {0})
  unfolding reg push_registers write_reg advance mask_registers
  execute_thumb_push pc register_mask include_lr = do
    let low = mask_registers 8 0 register_mask
    let registers = if include_lr then low ++ 14 ∷ [] else low
    start ← reg 13
    sp ← push_registers (reverse registers) start
    write_reg 13 sp
    advance (add32 pc 2)
