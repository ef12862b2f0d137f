-- ===== src/Cpu/Tests.antt =====
-- Runs of the interpreter on concrete states, and the theorems at concrete inputs.
use vmrp_rust.Prelude.{
  ◌+◌, ◌*◌, ◌^◌, ◌≡◌, refl, true, false, not, ◌==◌, if◌then◌else◌, arith, [], ◌∷◌,
}
use vmrp_rust.Prelude.Int.{as_i32, fits_i32, ◌-ℤ◌, ◌+ℤ◌}
use vmrp_rust.Prelude.Result
use vmrp_rust.Word.{add32, sub32}
use vmrp_rust.Cpu.Cpsr.{Cpsr, arm, thumb, sub_overflow, add_overflow, zero_flag}
use vmrp_rust.Cpu.Cpsr.Compare.{sub_overflow-add_overflow}
use vmrp_rust.Cpu.Condition.{arm_condition_passed, thumb_condition_passed, from_bits}
use vmrp_rust.Cpu.Condition.Compare.{Decides, compared, compared-Decides}
use vmrp_rust.Cpu.Condition.Complement.{thumb_condition_passed-from_bits}
use vmrp_rust.Cpu.Memory
use vmrp_rust.Cpu.Memory.{TestMemory, test_memory_bus, out_of_range}
use vmrp_rust.Cpu.Memory.RoundTrip.{InRange, read32-write32}
use vmrp_rust.Cpu.Decode.{RegisterShift}
use vmrp_rust.Cpu.Arm
use vmrp_rust.Cpu.Thumb
use vmrp_rust.Cpu.Machine.{Machine, ok, err, StepTrace, step_limit_exceeded, memory_error, ◌>>◌}
use vmrp_rust.Cpu.Execute.{perform}
use vmrp_rust.Cpu.Execute.Common.{add_with_carry, apply_register_shift}
use vmrp_rust.Cpu.Execute.DataProcessing.{execute_multiply_long, execute_data_processing_immediate}
use vmrp_rust.Cpu.Execute.Shifts.{
  shifted, apply_register_shift-lsl_register, apply_register_shift-lsr_register,
}
use vmrp_rust.Cpu.Execute.LongBranch.{Called, long_branch-Called}
use vmrp_rust.Cpu.Execute.Arithmetic.{
  Sums, add_with_carry-Sums, Product, execute_multiply_long-Product,
}
use vmrp_rust.Cpu.Step.{Cpu, new, start, step, run_until}
use vmrp_rust.Cpu.Safety.{IsValid}
use vmrp_rust.Cpu.Safety.TestMemory.{test_memory_bytes, test_memory-ReadsFit}
use vmrp_rust.Cpu.Safety.Run.{
  Ends, Fails, Steps, done, next, step-Ends, run_until-Fails, run_until-limit, run_until-error,
}

-- The bytes of `mov r0, #5; addeq r0, r0, #2` at address 0.
abbrev program : TestMemory
program = record {
  base = 0;
  len = 8;
  byte = λ i.
      if i == 0
      then 0x05
      else if i == 2
      then 0xa0
      else if i == 3
      then 0xe3
      else if i == 4
      then 0x02
      else if i == 6
      then 0x80
      else if i == 7
      then 0x02
      else 0;
}

abbrev at_start : Cpu TestMemory
at_start = record { memory = program; regs = record { regs = λ _. 0; cpsr = record { bits = 0 } } }

-- After the move.
abbrev moved : Cpu TestMemory
moved = record {
  memory = program;
  regs = record {
    regs = λ i. if i == 15 then 4 else if i == 0 then 5 else 0;
    cpsr = record { bits = 0 };
  };
}

abbrev move_trace : StepTrace
move_trace = record {
  pc = 0;
  mode = arm;
  opcode = 0xe3a0_0005;
  register_writes = record { index = 0; value = 5 } ∷ record { index = 15; value = 4 } ∷ [];
}

at_start-new : new program ≡ at_start
unfolding new
at_start-new = refl

step-move : step at_start ≡ (ok move_trace, moved)
unfolding step Memory.read32 Memory.offset_for execute_data_processing_immediate
step-move = refl

-- After the addition, which the flag Z does not let through.
abbrev skipped_addition : Cpu TestMemory
skipped_addition = record {
  memory = program;
  regs = record {
    regs = λ i. if i == 15 then 8 else moved.regs.regs i;
    cpsr = record { bits = 0 };
  };
}

abbrev skip_trace : StepTrace
skip_trace = record {
  pc = 4;
  mode = arm;
  opcode = 0x0280_0002;
  register_writes = record { index = 15; value = 8 } ∷ [];
}

at_start-IsValid : IsValid (start at_start)
at_start-IsValid = record {
  memory_holds = λ i. ground arith;
  regs_fit = λ i. omega arith;
  cpsr_fits = omega arith;
}

step-Ends_example : Ends (step at_start)
step-Ends_example = step-Ends test_memory-ReadsFit at_start at_start-IsValid

run_until-Fails_example : Fails (run_until 3 at_start)
run_until-Fails_example = run_until-Fails test_memory-ReadsFit 3 at_start at_start-IsValid

-- The addition is skipped.
step-skip : step moved ≡ (ok skip_trace, skipped_addition)
unfolding step Memory.read32 Memory.offset_for arm_condition_passed zero_flag
step-skip = refl

at_start-Steps : Steps 2 at_start skipped_addition
at_start-Steps = next move_trace step-move (next skip_trace step-skip done)

run_until-limit_example : run_until 2 at_start ≡ (err (step_limit_exceeded 2 8), skipped_addition)
run_until-limit_example = run_until-limit 2 at_start skipped_addition at_start-Steps

-- The third step reads past the memory.
step-past : step skipped_addition ≡ (err (memory_error (out_of_range 8)), skipped_addition)
unfolding step Memory.read32 Memory.offset_for
step-past = refl

run_until-error_example :
    run_until 5 at_start ≡ (err (memory_error (out_of_range 8)), skipped_addition)
run_until-error_example =
    run_until-error 5 2 at_start skipped_addition skipped_addition (memory_error (out_of_range 8))
      (omega arith) at_start-Steps step-past

-- A status register with every flag set, in ARM mode, and a machine with it.
abbrev status : Cpsr
status = record { bits = 0xf000_001f }

abbrev machine : Machine TestMemory
machine = record {
  memory = program;
  regs = record { regs = λ i. i * 0x1000_0001; cpsr = status };
  register_writes = [];
}

compared-Decides_example :
    Decides (arm_condition_passed (compared status 3 0xffff_fffe)) 3 0xffff_fffe
compared-Decides_example =
    compared-Decides status (omega arith) 3 0xffff_fffe (omega arith) (omega arith)

-- `bl` from 0x8000 back to 0x7ffc.
long_branch-Called_example : Called machine 0x7ffc 0x8004 (
    (perform (Thumb.decode 0xf7ff) 0x8000 thumb 0xf7ff
        >> perform (Thumb.decode 0xfffc) 0x8002 thumb 0xfffc)
      machine)
long_branch-Called_example =
    long_branch-Called 0x8000 0x7ff 0x7fc refl (omega arith) (omega arith) (omega arith) machine
      (omega arith)

execute_multiply_long-Product_example :
    Product 4 5
      (0x6000_0006 * 0x7000_0007 + (0x4000_0004 * 2 ^ 32 + 0x5000_0005))
      (execute_multiply_long false true true 4 5 6 7 0x8000 machine)
execute_multiply_long-Product_example =
    execute_multiply_long-Product machine 4 5 6 7 0x8000 (omega arith) (omega arith)
      (λ p. omega arith) (omega arith) (omega arith) (omega arith) true true

add_with_carry-Sums_example : Sums 0x7fff_ffff 0 true (add_with_carry 0x7fff_ffff 0 true)
add_with_carry-Sums_example = add_with_carry-Sums 0x7fff_ffff 0 true (omega arith) (omega arith)

low_word : InRange program 4 4
low_word = record { above = omega arith; below = omega arith; sized = omega arith }

read32-write32_example :
    ((Memory.write32 program 4 0xdead_beef).0 ≡ Result.ok tt)
    × (Memory.read32 (Memory.write32 program 4 0xdead_beef).1 4 ≡ Result.ok 0xdead_beef)
read32-write32_example = read32-write32 program 4 0xdead_beef low_word (omega arith)

-- A machine whose register 1 holds 0x120, so that the amount is 32.
abbrev with_amount : Machine TestMemory
with_amount = record {
  memory = program;
  regs = record { regs = λ i. if i == 1 then 0x120 else 0; cpsr = record { bits = 0 } };
  register_writes = [];
}

apply_register_shift-lsl_register_example :
    apply_register_shift 0x8000_0001 (RegisterShift.lsl_register 1) false with_amount
    ≡ (ok (shifted 0x8000_0001 32 0 true), with_amount)
apply_register_shift-lsl_register_example =
    apply_register_shift-lsl_register 0x8000_0001 1 false with_amount (omega arith) (omega arith)

apply_register_shift-lsr_register_example :
    apply_register_shift 0x8000_0001 (RegisterShift.lsr_register 1) false with_amount
    ≡ (ok (shifted 0x8000_0001 32 0 true), with_amount)
apply_register_shift-lsr_register_example =
    apply_register_shift-lsr_register 0x8000_0001 1 false with_amount (omega arith) (omega arith)

sub_overflow-add_overflow_example :
    (sub_overflow 0x8000_0000 1 (sub32 0x8000_0000 1)
      ≡ not (fits_i32 (as_i32 0x8000_0000 -ℤ as_i32 1)))
    × (add_overflow 0x8000_0000 1 (add32 0x8000_0000 1)
        ≡ not (fits_i32 (as_i32 0x8000_0000 +ℤ as_i32 1)))
sub_overflow-add_overflow_example =
    sub_overflow-add_overflow 0x8000_0000 1 (omega arith) (omega arith)

thumb_condition_passed-from_bits_example :
    thumb_condition_passed status (from_bits 0xb) ≡ arm_condition_passed status 0xb
thumb_condition_passed-from_bits_example = thumb_condition_passed-from_bits status 0xb
