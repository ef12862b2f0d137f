-- ===== src/Cpu/Safety/Decoded/ThumbRanges.antt =====
-- The instructions of crates/vmrp-cpu/src/decode/thumb.rs have numbers in the ranges of
-- their fields.
use vmrp_rust.Prelude.{Bool, List, [], ◌∷◌, if◌then◌else◌}
use vmrp_rust.Cpu.Decode.{DecodedInstruction}
use vmrp_rust.Cpu.Thumb

-- The first instruction whose test passes, or the last one.
abbrev choose : List (Bool × DecodedInstruction) → DecodedInstruction → DecodedInstruction
choose [] last = last
choose ((test, instruction) ∷ rest) last = if test then instruction else choose rest last
