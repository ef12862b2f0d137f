-- ===== src/Cpu/Execute/Transfer.antt =====
-- crates/vmrp-cpu/src/execute.rs: loads and stores in ARM mode.
use vmrp_rust.Prelude.{
  ℕ, ◌+◌, ◌-◌, ◌*◌, ◌%◌, ◌^◌, Bool, true, false, not, ◌&&◌, ◌||◌, ◌==◌, if◌then◌else◌, List, [],
  ◌∷◌, length,
}
use vmrp_rust.Word.{add32, sub32, i32_of_i8, i32_of_i16}
use vmrp_rust.Cpu.Cpsr.{ExecutionMode, carry}
use vmrp_rust.Cpu.Memory.{MemoryBus}
use vmrp_rust.Cpu.Decode.{RegisterShift}
use vmrp_rust.Cpu.Machine.{
  Exec, pure, ◌>>=◌, ◌>>◌, fail, unimplemented_instruction, reg, cpsr, read8, read16, read32,
  write8, write16, write32,
}
use vmrp_rust.Cpu.Execute.Common.{
  when, advance, write_reg, exchange, reg_or_pc, read_arm_word, write_arm_word,
  apply_register_shift, mask_registers,
}

-- The address after the offset, and the one that is accessed.
abbrev pub offset_address : Bool → ℕ → ℕ → ℕ
offset_address add_offset base_addr offset =
    if add_offset then add32 base_addr offset else sub32 base_addr offset

abbrev pub access_address : Bool → ℕ → ℕ → ℕ
access_address pre_index base_addr offset_addr = if pre_index then offset_addr else base_addr

module _ {M : Type 0} ⦃bus : MemoryBus M⦄ where
  unfoldable pub execute_arm_single_data_transfer :
      ℕ → ExecutionMode → Bool → Bool → ℕ → ℕ → ℕ → Bool → Bool → Bool → Exec M (Unit {0})
  unfolding reg_or_pc read8 read_arm_word exchange write_reg reg write8 write_arm_word advance
  execute_arm_single_data_transfer pc mode load byte base rd offset add_offset pre_index
        write_back =
      do
        base_addr ← reg_or_pc mode pc base
        let offset_addr = offset_address add_offset base_addr offset
        let address = access_address pre_index base_addr offset_addr
        if load
            then (do
              value ← (if byte then read8 address else read_arm_word address)
              if rd == 15 && not byte then exchange value else write_reg rd value)
            else (do
              value ← reg rd
              if byte then write8 address (value % 2 ^ 8) else write_arm_word address value)
        when (not pre_index || write_back) (write_reg base offset_addr)
        when (not (load && rd == 15 && not byte)) (advance (add32 pc 4))

  -- The value of a halfword load; an unsigned byte is not one of them.
  unfoldable pub load_halfword : ℕ → ExecutionMode → Bool → Bool → ℕ → Exec M ℕ
  unfolding read16 read8 fail
  load_halfword pc mode true true address = do value ← read16 address; pure (i32_of_i16 value)
  load_halfword pc mode true false address = do value ← read8 address; pure (i32_of_i8 value)
  load_halfword pc mode false true address = read16 address
  load_halfword pc mode false false address = fail (unimplemented_instruction pc mode 0)

  unfoldable pub execute_arm_halfword_transfer :
      ℕ → ExecutionMode → Bool → Bool → Bool → ℕ → ℕ → ℕ → Bool → Bool → Bool → Exec M (Unit {0})
  unfolding reg_or_pc load_halfword write_reg reg write16 fail advance
  execute_arm_halfword_transfer pc mode load signed halfword base rd offset add_offset pre_index
        write_back =
      do
        base_addr ← reg_or_pc mode pc base
        let offset_addr = offset_address add_offset base_addr offset
        let address = access_address pre_index base_addr offset_addr
        if load
            then (do value ← load_halfword pc mode signed halfword address; write_reg rd value)
            else if signed || not halfword
            then fail (unimplemented_instruction pc mode 0)
            else (do value ← reg rd; write16 address (value % 2 ^ 16))
        when (not pre_index || write_back) (write_reg base offset_addr)
        when (not (load && rd == 15)) (advance (add32 pc 4))

  unfoldable pub execute_single_data_transfer_register :
      ℕ
      → ExecutionMode
      → Bool
      → Bool
      → ℕ
      → ℕ
      → ℕ
      → RegisterShift
      → Bool
      → Bool
      → Bool
      → Exec M (Unit {0})
  unfolding reg_or_pc cpsr apply_register_shift execute_arm_single_data_transfer
  execute_single_data_transfer_register pc mode load byte base rd rm shift add_offset pre_index
        write_back =
      do
        rm_value ← reg_or_pc mode pc rm
        status ← cpsr
        (offset, _) ← apply_register_shift rm_value shift (carry status)
        execute_arm_single_data_transfer pc mode load byte base rd offset add_offset pre_index
            write_back

  unfoldable pub execute_halfword_transfer_register :
      ℕ → ExecutionMode → Bool → Bool → Bool → ℕ → ℕ → ℕ → Bool → Bool → Bool → Exec M (Unit {0})
  unfolding reg_or_pc execute_arm_halfword_transfer
  execute_halfword_transfer_register pc mode load signed halfword base rd rm add_offset pre_index
        write_back =
      do
        offset ← reg_or_pc mode pc rm
        execute_arm_halfword_transfer pc mode load signed halfword base rd offset add_offset
            pre_index write_back

  -- One register of a block transfer. The answer tells whether the pc has been loaded.
  unfoldable pub transfer_register : Bool → ℕ → ℕ → Bool → Exec M Bool
  unfolding read32 exchange write_reg reg write32
  transfer_register true addr index loaded_pc = do
    value ← read32 addr
    if index == 15
        then (do exchange value; pure true)
        else (do write_reg index value; pure loaded_pc)
  transfer_register false addr index loaded_pc = do
    value ← reg index
    write32 addr value
    pure loaded_pc

  unfoldable pub transfer_registers : Bool → ℕ → List ℕ → ℕ → Bool → Exec M Bool
  unfolding transfer_register
  transfer_registers load start [] slot loaded_pc = pure loaded_pc
  transfer_registers load start (index ∷ registers) slot loaded_pc = do
    loaded_pc' ← transfer_register load (add32 start (slot * 4)) index loaded_pc
    transfer_registers load start registers (slot + 1) loaded_pc'

-- The lowest address of a block of `count` registers, and the base after it.
unfoldable pub block_start : Bool → Bool → ℕ → ℕ → ℕ
block_start add_offset pre_index base_value count =
    if add_offset
    then (if pre_index then add32 base_value 4 else base_value)
    else if pre_index
    then sub32 base_value (count * 4)
    else sub32 base_value ((count - 1) * 4)

unfoldable pub block_end : Bool → ℕ → ℕ → ℕ
block_end add_offset base_value count =
    if add_offset then add32 base_value (count * 4) else sub32 base_value (count * 4)

module _ {M : Type 0} ⦃bus : MemoryBus M⦄ where
  unfoldable pub execute_block_transfer : ℕ → Bool → Bool → Bool → Bool → ℕ → ℕ → Exec M (Unit {0})
  unfolding reg transfer_registers write_reg advance mask_registers block_start block_end
  execute_block_transfer pc load pre_index add_offset write_back base register_mask = do
    let registers = mask_registers 16 0 register_mask
    let count = length registers
    base_value ← reg base
    let start = block_start add_offset pre_index base_value count
    loaded_pc ← transfer_registers load start registers 0 false
    when write_back (write_reg base (block_end add_offset base_value count))
    when (not (load && loaded_pc)) (advance (add32 pc 4))
