-- ===== src/Cpu.antt =====
-- crates/vmrp-cpu: the ARM and Thumb interpreter.
pub mod Cpsr
pub mod Condition
pub mod Regs
pub mod Memory
pub mod Decode
pub mod Arm
pub mod Thumb
pub mod Machine
pub mod Execute
pub mod Step
pub mod Safety
mod Tests
