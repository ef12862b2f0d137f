-- ===== src/Cpu/Safety/Decoded/ArmRanges.antt =====
-- The instructions of crates/vmrp-cpu/src/decode/arm.rs have numbers in the ranges of
-- their fields.
use vmrp_rust.Prelude.{Bool, true, false, Option, none, some, if◌then◌else◌}
use vmrp_rust.Cpu.Decode.{RegisterShift, DecodedInstruction}
use vmrp_rust.Cpu.Arm
use vmrp_rust.Cpu.Safety.Decoded.Ranges.{IsAmount, IsInRange}

-- A conditional between two instructions.
pub IsInRange-if :
    (b : Bool) (x y : DecodedInstruction)
    → IsInRange x
    → IsInRange y
    → IsInRange (if b then x else y)
IsInRange-if true x y p q = p
IsInRange-if false x y p q = q

-- The shift of an optional one, when there is one.
abbrev IsAmount? : Option RegisterShift → Type 0
IsAmount? none = Unit {0}
IsAmount? (some shift) = IsAmount shift
