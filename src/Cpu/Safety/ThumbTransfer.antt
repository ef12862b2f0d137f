-- ===== src/Cpu/Safety/ThumbTransfer.antt =====
-- Thumb loads and stores of crates/vmrp-cpu/src/execute.rs keep the registers u32 and never panic,
-- over any bus whose answers fit their width.
use vmrp_rust.Prelude.{
  ℕ, zero, suc, ◌+◌, ◌≤◌, ◌<◌, Bool, true, false, arith, if◌then◌else◌, List, [], ◌∷◌, ◌++◌, All,
}
use mathlib.Core.List.{reverse, reverse-cons}
use vmrp_rust.Word.{IsU32, add32, sub32, bit}
use vmrp_rust.Cpu.Memory.{MemoryBus}
use vmrp_rust.Cpu.Safety.{
  MemoryInvariant, Safely, Done, Safely-bind, Safely-then, Safely-pure, Safely-if, reg-Safely,
  ReadsFit, read32-Safely, write8-Safely, write32-Safely,
}
use vmrp_rust.Cpu.Safety.Common.{
  write_reg-Safely, advance-Safely, exchange-Safely, mask_registers-All,
}
use vmrp_rust.Cpu.Safety.Transfer.{read_byte-Safely}
use vmrp_rust.Cpu.Safety.DataProcessing.{add32-IsU32, sub32-IsU32}
use vmrp_rust.Cpu.Execute.Common.{advance, mask_registers}
use vmrp_rust.Cpu.Execute.ThumbTransfer.{
  execute_thumb_literal_load, thumb_access, execute_thumb_load_store_register_offset,
  execute_thumb_load_store_sp_relative, execute_thumb_load_store_immediate, load_store_register,
  load_store_multiple, execute_thumb_load_store_multiple, execute_thumb_pop, push_registers,
  execute_thumb_push,
}

abbrev IsIndex : ℕ → Type 0
IsIndex r = r < 16

All-append : (xs ys : List ℕ) → All IsIndex xs → All IsIndex ys → All IsIndex (xs ++ ys)
All-append [] ys p q = q
All-append (x ∷ xs) ys p q = (p.0, All-append xs ys p.1 q)

All-reverse : (xs : List ℕ) → All IsIndex xs → All IsIndex (reverse xs)
All-reverse [] p = tt
All-reverse (x ∷ xs) p =
    rw (reverse-cons x xs) (All-append (reverse xs) (x ∷ []) (All-reverse xs p.1) (p.0, tt))

pushed-All :
    (include_lr : Bool) (low : List ℕ)
    → All IsIndex low
    → All IsIndex (if include_lr then low ++ 14 ∷ [] else low)
pushed-All true low p = All-append low (14 ∷ []) p (omega arith, tt)
pushed-All false low p = p

module _ {M : Type 0} ⦃inv : MemoryInvariant M⦄ ⦃bus : MemoryBus M⦄ (fit : ReadsFit bus)
    (pc : ℕ) where
  next-Safely : Safely {M = M} Done (advance (add32 pc 2))
  next-Safely = advance-Safely _ (add32-IsU32 pc 2)

  pub execute_thumb_literal_load-Safely :
      (rd offset : ℕ) → rd < 16 → Safely {M = M} Done (execute_thumb_literal_load pc rd offset)
  unfolding execute_thumb_literal_load
  execute_thumb_literal_load-Safely rd offset h =
      Safely-bind (read32-Safely fit _)
        λ value q. Safely-then (write_reg-Safely rd value h q) next-Safely

  thumb_access-Safely :
      (load byte : Bool) (rd addr : ℕ)
      → rd < 16
      → Safely {M = M} Done (thumb_access load byte rd addr)
  unfolding thumb_access
  thumb_access-Safely true byte rd addr h =
      Safely-bind {Q = IsU32} (Safely-if byte (read_byte-Safely fit addr) (read32-Safely fit addr))
        λ value q. write_reg-Safely rd value h q
  thumb_access-Safely false byte rd addr h = Safely-bind (reg-Safely rd h) λ value q.
      Safely-if byte (write8-Safely fit addr _ (omega arith)) (write32-Safely fit addr value q)

  pub execute_thumb_load_store_register_offset-Safely :
      (load byte : Bool) (offset base rd : ℕ)
      → offset < 16
      → base < 16
      → rd < 16
      → Safely {M = M} Done (execute_thumb_load_store_register_offset pc load byte offset base rd)
  unfolding execute_thumb_load_store_register_offset
  execute_thumb_load_store_register_offset-Safely load byte offset base rd ho hb hd =
      Safely-bind (reg-Safely base hb) λ _ _.
        Safely-bind (reg-Safely offset ho)
          λ _ _. Safely-then (thumb_access-Safely load byte rd _ hd) next-Safely

  pub execute_thumb_load_store_sp_relative-Safely :
      (load : Bool) (rd offset : ℕ)
      → rd < 16
      → Safely {M = M} Done (execute_thumb_load_store_sp_relative pc load rd offset)
  unfolding execute_thumb_load_store_sp_relative
  execute_thumb_load_store_sp_relative-Safely load rd offset h =
      Safely-bind (reg-Safely 13 (omega arith))
        λ sp _. Safely-then (thumb_access-Safely load false rd (add32 sp offset) h) next-Safely

  pub execute_thumb_load_store_immediate-Safely :
      (byte load : Bool) (base rd offset : ℕ)
      → base < 16
      → rd < 16
      → Safely {M = M} Done (execute_thumb_load_store_immediate pc byte load base rd offset)
  unfolding execute_thumb_load_store_immediate
  execute_thumb_load_store_immediate-Safely byte load base rd offset hb hd =
      Safely-bind (reg-Safely base hb)
        λ _ _. Safely-then (thumb_access-Safely load byte rd _ hd) next-Safely

  load_store_register-Safely :
      (load : Bool) (index addr : ℕ)
      → index < 16
      → Safely {M = M} Done (load_store_register load index addr)
  unfolding load_store_register
  load_store_register-Safely true index addr h =
      Safely-bind (read32-Safely fit addr) λ value q. write_reg-Safely index value h q
  load_store_register-Safely false index addr h =
      Safely-bind (reg-Safely index h) λ value q. write32-Safely fit addr value q

  load_store_multiple-Safely :
      (load : Bool) (n index register_mask addr : ℕ)
      → index + n ≤ 16
      → IsU32 addr
      → Safely {M = M} IsU32 (load_store_multiple load n index register_mask addr)
  unfolding load_store_multiple
  load_store_multiple-Safely load zero index register_mask addr h p = Safely-pure addr p
  load_store_multiple-Safely load (suc n) index register_mask addr h p =
      Safely-bind {Q = IsU32}
        (Safely-if (bit register_mask index)
          (Safely-then (load_store_register-Safely load index addr (omega arith))
            (Safely-pure _ (add32-IsU32 addr 4)))
          (Safely-pure addr p))
        λ addr' q. load_store_multiple-Safely load n (index + 1) register_mask addr' (omega arith) q

  pub execute_thumb_load_store_multiple-Safely :
      (load : Bool) (base register_mask : ℕ)
      → base < 16
      → Safely {M = M} Done (execute_thumb_load_store_multiple pc load base register_mask)
  unfolding execute_thumb_load_store_multiple
  execute_thumb_load_store_multiple-Safely load base register_mask h =
      Safely-bind (reg-Safely base h) λ start p.
        Safely-bind (load_store_multiple-Safely load 8 0 register_mask start (omega arith) p)
          λ addr q. Safely-then (write_reg-Safely base addr h q) next-Safely

  pub execute_thumb_pop-Safely :
      (register_mask : ℕ) (include_pc : Bool)
      → Safely {M = M} Done (execute_thumb_pop pc register_mask include_pc)
  unfolding execute_thumb_pop
  execute_thumb_pop-Safely register_mask include_pc =
      Safely-bind (reg-Safely 13 (omega arith)) λ start p.
        Safely-bind (load_store_multiple-Safely true 8 0 register_mask start (omega arith) p)
          λ sp q.
            Safely-if include_pc
              (Safely-bind (read32-Safely fit sp) λ target r.
                Safely-then (write_reg-Safely 13 _ (omega arith) (add32-IsU32 sp 4))
                  (exchange-Safely target r))
              (Safely-then (write_reg-Safely 13 sp (omega arith) q) next-Safely)

  push_registers-Safely :
      (registers : List ℕ) (sp : ℕ)
      → All IsIndex registers
      → IsU32 sp
      → Safely {M = M} IsU32 (push_registers registers sp)
  unfolding push_registers
  push_registers-Safely [] sp h p = Safely-pure sp p
  push_registers-Safely (index ∷ registers) sp h p = Safely-bind (reg-Safely index h.0) λ value q.
      Safely-then (write32-Safely fit _ value q)
        (push_registers-Safely registers (sub32 sp 4) h.1 (sub32-IsU32 sp 4))

  pub execute_thumb_push-Safely :
      (register_mask : ℕ) (include_lr : Bool)
      → Safely {M = M} Done (execute_thumb_push pc register_mask include_lr)
  unfolding execute_thumb_push
  execute_thumb_push-Safely register_mask include_lr =
      Safely-bind (reg-Safely 13 (omega arith)) λ start p.
        Safely-bind (push_registers-Safely _ start (All-reverse _ pushed) p)
          λ sp q. Safely-then (write_reg-Safely 13 sp (omega arith) q) next-Safely
    where
      pushed :
          All IsIndex (
            let low = mask_registers 8 0 register_mask in
            if include_lr then low ++ 14 ∷ [] else low)
      pushed = pushed-All include_lr _ (mask_registers-All 8 0 register_mask (omega arith))
