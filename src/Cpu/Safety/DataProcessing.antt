-- ===== src/Cpu/Safety/DataProcessing.antt =====
-- Data processing and multiplication of crates/vmrp-cpu/src/execute.rs keep the registers u32 and
-- never panic.
use vmrp_rust.Prelude.{ℕ, ◌<◌, Bool, arith, Option, some, none}
use vmrp_rust.Word.{IsU32, add32, sub32, mul32, not32}
use vmrp_rust.Word.Bounds.{bit_and-IsU32, bit_or-IsU32, bit_xor-IsU32}
use vmrp_rust.Cpu.Cpsr.{
  Cpsr, ExecutionMode, update_nz, update_nzcv_add, update_nzcv_sub, set_carry, set_overflow,
  set_negative, set_zero, carry,
}
use vmrp_rust.Cpu.Cpsr.Flags.{
  set_carry-IsU32, set_overflow-IsU32, set_zero-IsU32, set_negative-IsU32,
}
use vmrp_rust.Cpu.Cpsr.Compare.{update_nz-IsU32, update_nzcv_add-IsU32, update_nzcv_sub-IsU32}
use vmrp_rust.Cpu.Decode.{DataProcessingOp, RegisterShift}
use vmrp_rust.Cpu.Machine.{change_cpsr}
use vmrp_rust.Cpu.Safety.{
  MemoryInvariant, Safely, Done, Safely-bind, Safely-then, Safely-pure, Safely-if, reg-Safely,
  set_reg-Safely, push_write-Safely, cpsr-Safely, change_cpsr-Safely,
}
use vmrp_rust.Cpu.Safety.Common.{
  when-Safely, advance-Safely, write_result_and_advance-Safely, reg_or_pc-Safely, IsShift,
  apply_register_shift-Safely,
}
use vmrp_rust.Cpu.Execute.Common.{add_with_carry, arm_immediate_carry}
use vmrp_rust.Cpu.Execute.DataProcessing.{
  set_shifter_carry, logical_flags, write_logical, write_sum, write_difference, write_sum_carry,
  data_processing, execute_data_processing_register, immediate_left,
  execute_data_processing_immediate, execute_multiply, execute_multiply_long,
}

pub add32-IsU32 : (a b : ℕ) → IsU32 (add32 a b)
add32-IsU32 a b = omega arith

pub sub32-IsU32 : (a b : ℕ) → IsU32 (sub32 a b)
sub32-IsU32 a b = omega arith

pub not32-IsU32 : (a : ℕ) → IsU32 (not32 a)
not32-IsU32 a = omega arith

adc_flags-IsU32 :
    (value : ℕ) (c v : Bool) (r : Cpsr)
    → IsU32 r.bits
    → IsU32 (set_overflow (set_carry (update_nz r value) c) v).bits
adc_flags-IsU32 value c v r h =
    set_overflow-IsU32 _ (set_carry-IsU32 _ (update_nz-IsU32 r h value) c) v

long_flags-IsU32 :
    (n z : Bool) (r : Cpsr) → IsU32 r.bits → IsU32 (set_zero (set_negative r n) z).bits
long_flags-IsU32 n z r h = set_zero-IsU32 _ (set_negative-IsU32 r h n) z

add_with_carry-IsU32 : (a b : ℕ) (c : Bool) → IsU32 (add_with_carry a b c).0
unfolding add_with_carry
add_with_carry-IsU32 a b c = omega arith

module _ {M : Type 0} ⦃inv : MemoryInvariant M⦄ where
  pub update_nz-Safely : (value : ℕ) → Safely {M = M} Done (change_cpsr (λ r. update_nz r value))
  update_nz-Safely value = change_cpsr-Safely _ λ r h. update_nz-IsU32 r h value

  pub update_nzcv_add-Safely :
      (a b c : ℕ) → Safely {M = M} Done (change_cpsr (λ r. update_nzcv_add r a b c))
  update_nzcv_add-Safely a b c = change_cpsr-Safely _ λ r h. update_nzcv_add-IsU32 r h a b c

  pub update_nzcv_sub-Safely :
      (a b c : ℕ) → Safely {M = M} Done (change_cpsr (λ r. update_nzcv_sub r a b c))
  update_nzcv_sub-Safely a b c = change_cpsr-Safely _ λ r h. update_nzcv_sub-IsU32 r h a b c

  set_shifter_carry-Safely : (c : Option Bool) → Safely {M = M} Done (set_shifter_carry c)
  unfolding set_shifter_carry
  set_shifter_carry-Safely none = Safely-pure tt tt
  set_shifter_carry-Safely (some c) = change_cpsr-Safely _ λ r h. set_carry-IsU32 r h c

  pub logical_flags-Safely :
      (result : ℕ) (c : Option Bool) → Safely {M = M} Done (logical_flags result c)
  unfolding logical_flags
  logical_flags-Safely result c = Safely-then (update_nz-Safely result) (set_shifter_carry-Safely c)

  module _ (set_flags : Bool) (rd : ℕ) (is_reg : rd < 16) where
    write_logical-Safely :
        (result pc : ℕ) (c : Option Bool)
        → IsU32 result
        → Safely {M = M} Done (write_logical set_flags rd result pc c)
    unfolding write_logical
    write_logical-Safely result pc c h = search (
      Safely-then, write_result_and_advance-Safely, add32-IsU32, when-Safely, logical_flags-Safely,
    )

    write_sum-Safely :
        (left right pc : ℕ) → Safely {M = M} Done (write_sum set_flags rd left right pc)
    unfolding write_sum
    write_sum-Safely left right pc = search (
      Safely-then, write_result_and_advance-Safely, add32-IsU32, when-Safely,
      update_nzcv_add-Safely,
    )

    write_difference-Safely :
        (left right pc : ℕ) → Safely {M = M} Done (write_difference set_flags rd left right pc)
    unfolding write_difference
    write_difference-Safely left right pc = search (
      Safely-then, write_result_and_advance-Safely, add32-IsU32, when-Safely,
      update_nzcv_sub-Safely,
    )

    write_sum_carry-Safely :
        (left right pc : ℕ) → Safely {M = M} Done (write_sum_carry set_flags rd left right pc)
    unfolding write_sum_carry
    write_sum_carry-Safely left right pc = Safely-bind cpsr-Safely λ status _.
        Safely-then
          (write_result_and_advance-Safely rd _ _ is_reg
            (add_with_carry-IsU32 left right (carry status)) (add32-IsU32 pc 4))
          (when-Safely set_flags (
            change_cpsr-Safely _ (
              adc_flags-IsU32 (add_with_carry left right (carry status)).0
                (add_with_carry left right (carry status)).1
                (add_with_carry left right (carry status)).2)))

    pub data_processing-Safely :
        (op : DataProcessingOp) (left right : ℕ) (c : Option Bool) (pc : ℕ)
        → IsU32 left
        → IsU32 right
        → Safely {M = M} Done (data_processing op set_flags rd left right c pc)
    unfolding data_processing
    data_processing-Safely DataProcessingOp.and left right c pc p q =
        write_logical-Safely _ pc c (bit_and-IsU32 left right p q)
    data_processing-Safely DataProcessingOp.eor left right c pc p q =
        write_logical-Safely _ pc c (bit_xor-IsU32 left right p q)
    data_processing-Safely DataProcessingOp.tst left right c pc p q =
        Safely-then (logical_flags-Safely _ c) (advance-Safely _ (add32-IsU32 pc 4))
    data_processing-Safely DataProcessingOp.orr left right c pc p q =
        write_logical-Safely _ pc c (bit_or-IsU32 left right p q)
    data_processing-Safely DataProcessingOp.bic left right c pc p q =
        write_logical-Safely _ pc c (bit_and-IsU32 left (not32 right) p (not32-IsU32 right))
    data_processing-Safely DataProcessingOp.add left right c pc p q = write_sum-Safely left right pc
    data_processing-Safely DataProcessingOp.adc left right c pc p q =
        write_sum_carry-Safely left right pc
    data_processing-Safely DataProcessingOp.sub left right c pc p q =
        write_difference-Safely left right pc
    data_processing-Safely DataProcessingOp.rsb left right c pc p q =
        write_difference-Safely right left pc
    data_processing-Safely DataProcessingOp.mov left right c pc p q =
        write_logical-Safely right pc c q
    data_processing-Safely DataProcessingOp.mvn left right c pc p q =
        write_logical-Safely (not32 right) pc c (not32-IsU32 right)
    data_processing-Safely DataProcessingOp.cmp left right c pc p q =
        Safely-then (update_nzcv_sub-Safely _ _ _) (advance-Safely _ (add32-IsU32 pc 4))
    data_processing-Safely DataProcessingOp.cmn left right c pc p q =
        Safely-then (update_nzcv_add-Safely _ _ _) (advance-Safely _ (add32-IsU32 pc 4))

  pub execute_data_processing_register-Safely :
      (op : DataProcessingOp) (set_flags : Bool) (rn rd rm : ℕ) (shift : RegisterShift) (pc : ℕ)
      (mode : ExecutionMode)
      → rn < 16
      → rd < 16
      → rm < 16
      → IsShift shift
      → Safely {M = M} Done (execute_data_processing_register op set_flags rn rd rm shift pc mode)
  unfolding execute_data_processing_register
  execute_data_processing_register-Safely op set_flags rn rd rm shift pc mode hn hd hm hs =
      Safely-bind (reg_or_pc-Safely mode pc rn hn) λ left p.
        Safely-bind (reg_or_pc-Safely mode pc rm hm) λ rm_value q.
          Safely-bind cpsr-Safely λ status _.
            Safely-bind (apply_register_shift-Safely rm_value q shift (carry status) hs)
              λ out r. data_processing-Safely set_flags rd hd op left out.0 out.1 pc p r

  immediate_left-Safely :
      (op : DataProcessingOp) (rn : ℕ) → rn < 16 → Safely {M = M} IsU32 (immediate_left op rn)
  unfolding immediate_left
  immediate_left-Safely DataProcessingOp.mov rn h = Safely-pure 0 (omega arith)
  immediate_left-Safely DataProcessingOp.mvn rn h = Safely-pure 0 (omega arith)
  immediate_left-Safely op rn h = reg-Safely rn h

  pub execute_data_processing_immediate-Safely :
      (op : DataProcessingOp) (set_flags : Bool) (rn rd immediate pc opcode : ℕ)
      → rn < 16
      → rd < 16
      → IsU32 immediate
      → Safely {M = M} Done
          (execute_data_processing_immediate op set_flags rn rd immediate pc opcode)
  unfolding execute_data_processing_immediate
  execute_data_processing_immediate-Safely op set_flags rn rd immediate pc opcode hn hd hi =
      Safely-bind cpsr-Safely λ status _. Safely-bind (immediate_left-Safely op rn hn) λ left p.
        data_processing-Safely set_flags rd hd op left immediate
          (some (arm_immediate_carry opcode (carry status))) pc p hi

  pub execute_multiply-Safely :
      (accumulate set_flags : Bool) (rd rn rm rs pc : ℕ)
      → rd < 16
      → rn < 16
      → rm < 16
      → rs < 16
      → Safely {M = M} Done (execute_multiply accumulate set_flags rd rn rm rs pc)
  unfolding execute_multiply
  execute_multiply-Safely accumulate set_flags rd rn rm rs pc hd hn hm hs =
      Safely-bind (reg-Safely rm hm) λ lhs _. Safely-bind (reg-Safely rs hs) λ rhs _.
        Safely-bind
          (Safely-if accumulate
            (Safely-bind (reg-Safely rn hn) λ addend _. Safely-pure _ (add32-IsU32 _ addend))
            (Safely-pure {Q = IsU32} (mul32 lhs rhs) (omega arith)))
          λ result h.
            Safely-then (write_result_and_advance-Safely rd result _ hd h (add32-IsU32 pc 4))
              (when-Safely set_flags (update_nz-Safely result))

  pub execute_multiply_long-Safely :
      (signed accumulate set_flags : Bool) (rd_hi rd_lo rm rs pc : ℕ)
      → rd_hi < 16
      → rd_lo < 16
      → rm < 16
      → rs < 16
      → Safely {M = M} Done (execute_multiply_long signed accumulate set_flags rd_hi rd_lo rm rs pc)
  unfolding execute_multiply_long
  execute_multiply_long-Safely signed accumulate set_flags rd_hi rd_lo rm rs pc hh hl hm hs =
      Safely-bind (reg-Safely rm hm) λ lhs _. Safely-bind (reg-Safely rs hs) λ rhs _.
        Safely-bind {Q = λ _. Unit {0}}
          (Safely-if accumulate
            (Safely-bind (reg-Safely rd_hi hh)
              λ hi _. Safely-bind (reg-Safely rd_lo hl) λ lo _. Safely-pure _ tt)
            (Safely-pure _ tt))
          λ result _. Safely-then (set_reg-Safely rd_lo _ hl (omega arith)) (
            Safely-then (set_reg-Safely rd_hi _ hh (omega arith)) (
              Safely-then (push_write-Safely rd_lo _) (
                Safely-then (push_write-Safely rd_hi _) (
                  Safely-then (when-Safely set_flags (change_cpsr-Safely _ (long_flags-IsU32 _ _)))
                    (advance-Safely _ (add32-IsU32 pc 4))))))
