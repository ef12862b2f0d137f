-- ===== src/Cpu/Safety/Transfer.antt =====
-- The loads and stores of crates/vmrp-cpu/src/execute.rs keep the registers u32 and never panic,
-- over any bus whose answers fit their width.
use vmrp_rust.Prelude.{
  ℕ, ◌+◌, ◌<◌, Bool, true, false, not, ◌&&◌, ◌||◌, ◌==◌, arith, List, [], ◌∷◌, All,
}
use vmrp_rust.Word.{IsU32}
use vmrp_rust.Word.Bounds.{i32_of_i8-IsU32, i32_of_i16-IsU32}
use vmrp_rust.Cpu.Cpsr.{ExecutionMode, carry}
use vmrp_rust.Cpu.Memory.{MemoryBus}
use vmrp_rust.Cpu.Decode.{RegisterShift}
use vmrp_rust.Cpu.Machine.{read8, read16}
use vmrp_rust.Cpu.Safety.{
  MemoryInvariant, Safely, Done, Safely-weaken, Safely-bind, Safely-then, Safely-pure, Safely-fail,
  Safely-if, reg-Safely, cpsr-Safely, ReadsFit, read8-Safely, read16-Safely, read32-Safely,
  write8-Safely, write16-Safely, write32-Safely,
}
use vmrp_rust.Cpu.Safety.Common.{
  when-Safely, write_reg-Safely, advance-Safely, exchange-Safely, reg_or_pc-Safely, IsShift,
  read_arm_word-Safely, write_arm_word-Safely, apply_register_shift-Safely, mask_registers-All,
}
use vmrp_rust.Cpu.Safety.DataProcessing.{add32-IsU32}
use vmrp_rust.Cpu.Execute.Transfer.{
  offset_address, execute_arm_single_data_transfer, load_halfword, execute_arm_halfword_transfer,
  execute_single_data_transfer_register, execute_halfword_transfer_register, transfer_register,
  transfer_registers, block_end, execute_block_transfer,
}

offset_address-IsU32 : (up : Bool) (base offset : ℕ) → IsU32 (offset_address up base offset)
offset_address-IsU32 true base offset = omega arith
offset_address-IsU32 false base offset = omega arith

block_end-IsU32 : (up : Bool) (base count : ℕ) → IsU32 (block_end up base count)
unfolding block_end
block_end-IsU32 true base count = omega arith
block_end-IsU32 false base count = omega arith

module _ {M : Type 0} ⦃inv : MemoryInvariant M⦄ ⦃bus : MemoryBus M⦄ (fit : ReadsFit bus) where
  pub read_byte-Safely : (addr : ℕ) → Safely {M = M} IsU32 (read8 addr)
  read_byte-Safely addr = Safely-weaken (read8-Safely fit addr) λ v h. omega arith

  read_half-Safely : (addr : ℕ) → Safely {M = M} IsU32 (read16 addr)
  read_half-Safely addr = Safely-weaken (read16-Safely fit addr) λ v h. omega arith

  pub execute_arm_single_data_transfer-Safely :
      (pc : ℕ) (mode : ExecutionMode) (load byte : Bool) (base rd offset : ℕ)
      (add_offset pre_index write_back : Bool)
      → base < 16
      → rd < 16
      → Safely {M = M} Done (
          execute_arm_single_data_transfer pc mode load byte base rd offset add_offset pre_index
            write_back)
  unfolding execute_arm_single_data_transfer
  execute_arm_single_data_transfer-Safely pc mode load byte base rd offset add_offset pre_index
        write_back hb hd =
      Safely-bind (reg_or_pc-Safely mode pc base hb) λ base_addr _.
        Safely-then
          (Safely-if load
            (Safely-bind (Safely-if byte (read_byte-Safely _) (read_arm_word-Safely fit _))
              λ value h.
                Safely-if (rd == 15 && not byte) (exchange-Safely value h)
                  (write_reg-Safely rd value hd h))
            (Safely-bind (reg-Safely rd hd) λ value h.
              Safely-if byte (write8-Safely fit _ _ (omega arith))
                (write_arm_word-Safely fit _ value h)))
          (Safely-then
            (when-Safely (not pre_index || write_back)
              (write_reg-Safely base _ hb (offset_address-IsU32 add_offset base_addr offset)))
            (when-Safely (not (load && rd == 15 && not byte))
              (advance-Safely _ (add32-IsU32 pc 4))))

  load_halfword-Safely :
      (pc : ℕ) (mode : ExecutionMode) (signed halfword : Bool) (addr : ℕ)
      → Safely {M = M} IsU32 (load_halfword pc mode signed halfword addr)
  unfolding load_halfword
  load_halfword-Safely pc mode true true addr =
      Safely-bind (read16-Safely fit addr) λ v h. Safely-pure _ (i32_of_i16-IsU32 v h)
  load_halfword-Safely pc mode true false addr =
      Safely-bind (read8-Safely fit addr) λ v h. Safely-pure _ (i32_of_i8-IsU32 v h)
  load_halfword-Safely pc mode false true addr = read_half-Safely addr
  load_halfword-Safely pc mode false false addr = Safely-fail _

  pub execute_arm_halfword_transfer-Safely :
      (pc : ℕ) (mode : ExecutionMode) (load signed halfword : Bool) (base rd offset : ℕ)
      (add_offset pre_index write_back : Bool)
      → base < 16
      → rd < 16
      → Safely {M = M} Done (
          execute_arm_halfword_transfer pc mode load signed halfword base rd offset add_offset
            pre_index write_back)
  unfolding execute_arm_halfword_transfer
  execute_arm_halfword_transfer-Safely pc mode load signed halfword base rd offset add_offset
        pre_index write_back hb hd =
      Safely-bind (reg_or_pc-Safely mode pc base hb) λ base_addr _.
        Safely-then
          (Safely-if load
            (Safely-bind (load_halfword-Safely pc mode signed halfword _)
              λ value h. write_reg-Safely rd value hd h)
            (Safely-if (signed || not halfword) (Safely-fail _)
              (Safely-bind (reg-Safely rd hd) λ value _. write16-Safely fit _ _ (omega arith))))
          (Safely-then
            (when-Safely (not pre_index || write_back)
              (write_reg-Safely base _ hb (offset_address-IsU32 add_offset base_addr offset)))
            (when-Safely (not (load && rd == 15)) (advance-Safely _ (add32-IsU32 pc 4))))

  pub execute_single_data_transfer_register-Safely :
      (pc : ℕ) (mode : ExecutionMode) (load byte : Bool) (base rd rm : ℕ) (shift : RegisterShift)
      (add_offset pre_index write_back : Bool)
      → base < 16
      → rd < 16
      → rm < 16
      → IsShift shift
      → Safely {M = M} Done (
          execute_single_data_transfer_register pc mode load byte base rd rm shift add_offset
            pre_index write_back)
  unfolding execute_single_data_transfer_register
  execute_single_data_transfer_register-Safely pc mode load byte base rd rm shift add_offset
        pre_index write_back hb hd hm hs =
      Safely-bind (reg_or_pc-Safely mode pc rm hm) λ rm_value q. Safely-bind cpsr-Safely λ status _.
        Safely-bind (apply_register_shift-Safely rm_value q shift (carry status) hs) λ out _.
          execute_arm_single_data_transfer-Safely pc mode load byte base rd out.0 add_offset
            pre_index write_back hb hd

  pub execute_halfword_transfer_register-Safely :
      (pc : ℕ) (mode : ExecutionMode) (load signed halfword : Bool) (base rd rm : ℕ)
      (add_offset pre_index write_back : Bool)
      → base < 16
      → rd < 16
      → rm < 16
      → Safely {M = M} Done (
          execute_halfword_transfer_register pc mode load signed halfword base rd rm add_offset
            pre_index write_back)
  unfolding execute_halfword_transfer_register
  execute_halfword_transfer_register-Safely pc mode load signed halfword base rd rm add_offset
        pre_index write_back hb hd hm =
      Safely-bind (reg_or_pc-Safely mode pc rm hm) λ offset _.
        execute_arm_halfword_transfer-Safely pc mode load signed halfword base rd offset add_offset
          pre_index write_back hb hd

  transfer_register-Safely :
      (load : Bool) (addr index : ℕ) (loaded_pc : Bool)
      → index < 16
      → Safely {M = M} (λ _. Unit {0}) (transfer_register load addr index loaded_pc)
  unfolding transfer_register
  transfer_register-Safely true addr index loaded_pc h =
      Safely-bind (read32-Safely fit addr) λ value q.
        Safely-if (index == 15) (Safely-then (exchange-Safely value q) (Safely-pure _ tt))
          (Safely-then (write_reg-Safely index value h q) (Safely-pure _ tt))
  transfer_register-Safely false addr index loaded_pc h =
      Safely-bind (reg-Safely index h)
        λ value q. Safely-then (write32-Safely fit addr value q) (Safely-pure _ tt)

  transfer_registers-Safely :
      (load : Bool) (start : ℕ) (registers : List ℕ) (slot : ℕ) (loaded_pc : Bool)
      → All (λ r. r < 16) registers
      → Safely {M = M} (λ _. Unit {0}) (transfer_registers load start registers slot loaded_pc)
  unfolding transfer_registers
  transfer_registers-Safely load start [] slot loaded_pc h = Safely-pure _ tt
  transfer_registers-Safely load start (r ∷ rs) slot loaded_pc h =
      Safely-bind (transfer_register-Safely load _ r loaded_pc h.0)
        λ loaded_pc' _. transfer_registers-Safely load start rs (slot + 1) loaded_pc' h.1

  pub execute_block_transfer-Safely :
      (pc : ℕ) (load pre_index add_offset write_back : Bool) (base register_mask : ℕ)
      → base < 16
      → Safely {M = M} Done
          (execute_block_transfer pc load pre_index add_offset write_back base register_mask)
  unfolding execute_block_transfer
  execute_block_transfer-Safely pc load pre_index add_offset write_back base register_mask hb =
      Safely-bind (reg-Safely base hb) λ base_value _.
        Safely-bind
          (transfer_registers-Safely load _ _ 0 false
            (mask_registers-All 16 0 register_mask (omega arith)))
          λ loaded_pc _.
            Safely-then
              (when-Safely write_back
                (write_reg-Safely base _ hb (block_end-IsU32 add_offset base_value _)))
              (when-Safely (not (load && loaded_pc)) (advance-Safely _ (add32-IsU32 pc 4)))
