-- ===== src/Cpu/Safety.antt =====
-- A program logic for the state of crates/vmrp-cpu/src/execute.rs: runs that keep every register a
-- u32, end in a result or an error, and never panic.
pub mod Common
pub mod DataProcessing
pub mod Transfer
pub mod Branch
pub mod ThumbAlu
pub mod ThumbTransfer
pub mod Decoded
pub mod Step
pub mod Run
pub mod TestMemory
use vmrp_rust.Prelude.{
  ℕ, ◌+◌, ◌-◌, ◌*◌, ◌/◌, ◌%◌, ◌^◌, ◌<◌, ◌≡◌, refl, Bool, true, false, arith, if◌then◌else◌, lt→ltb,
  ◌==◌, ltb,
}
use vmrp_rust.Prelude.Result
use vmrp_rust.Prelude.Result.{Result}
use vmrp_rust.Word.{IsU8, IsU16, IsU32}
use vmrp_rust.Cpu.Cpsr.{Cpsr, ExecutionMode}
use vmrp_rust.Cpu.Cpsr.Flags.{set_execution_mode-IsU32}
use vmrp_rust.Cpu.Memory.{MemoryBus, MemoryAccessError}
use vmrp_rust.Cpu.Machine.{
  Machine, Outcome, ok, err, panicked, CpuError, Exec, pure, ◌>>=◌, ◌>>◌, fail, reg, set_reg, cpsr,
  change_cpsr, push_write, set_pc, set_execution_mode, of_read, of_write, and_then, read8, read16,
  read32, write8, write16, write32,
}

-- What holds of a memory all along, such as bytes below 256.
pub record MemoryInvariant (M : Type 0) : Type 1 where
  pub Holds : M → Type 0

pub record IsValid {M : Type 0} ⦃inv : MemoryInvariant M⦄ (s : Machine M) : Type 0 where
  pub memory_holds : inv.Holds s.memory
  pub regs_fit : (i : ℕ) → IsU32 (s.regs.regs i)
  pub cpsr_fits : IsU32 s.regs.cpsr.bits

pub data Safe {M A : Type 0} ⦃inv : MemoryInvariant M⦄ (Q : A → Type 0)
    : Outcome A × Machine M → Type 0 where
  returns : {a : A} {s : Machine M} → Q a → IsValid s → Safe Q (ok a, s)
  raises : {e : CpuError} {s : Machine M} → IsValid s → Safe Q (err e, s)

abbrev pub Safely : {M A : Type 0} ⦃inv : MemoryInvariant M⦄ → (A → Type 0) → Exec M A → Type 0
Safely {M} Q m = (s : Machine M) → IsValid s → Safe Q (m s)

abbrev pub Done : Unit {0} → Type 0
Done u = Unit {0}

Safe-and_then :
    {M A B : Type 0} ⦃inv : MemoryInvariant M⦄ {Q : A → Type 0} {R : B → Type 0} {f : A → Exec M B}
    {x : Outcome A × Machine M}
    → Safe Q x
    → ((a : A) → Q a → Safely R (f a))
    → Safe R (and_then x f)
Safe-and_then (returns {a = a} {s = s} q v) k = k a q s v
Safe-and_then (raises v) k = raises v

pub Safely-bind :
    {M A B : Type 0} ⦃inv : MemoryInvariant M⦄ {Q : A → Type 0} {R : B → Type 0} {m : Exec M A}
    {f : A → Exec M B}
    → Safely Q m
    → ((a : A) → Q a → Safely R (f a))
    → Safely R (m >>= f)
Safely-bind h k s v = Safe-and_then (h s v) k

pub Safely-then :
    {M B : Type 0} ⦃inv : MemoryInvariant M⦄ {R : B → Type 0} {m : Exec M (Unit {0})} {k : Exec M B}
    → Safely Done m
    → Safely R k
    → Safely R (m >> k)
Safely-then h k s v = Safe-and_then (h s v) (λ _ _. k)

-- Less may be said of the result.
pub Safely-weaken :
    {M A : Type 0} ⦃inv : MemoryInvariant M⦄ {Q R : A → Type 0} {m : Exec M A}
    → Safely Q m
    → ((a : A) → Q a → R a)
    → Safely R m
Safely-weaken h k s v = weakened (h s v) k
  where
    weakened :
        {M A : Type 0} ⦃inv : MemoryInvariant M⦄ {Q R : A → Type 0} {x : Outcome A × Machine M}
        → Safe Q x
        → ((a : A) → Q a → R a)
        → Safe R x
    weakened (returns {a = a} q v) k = returns (k a q) v
    weakened (raises v) k = raises v

pub Safely-pure :
    {M A : Type 0} ⦃inv : MemoryInvariant M⦄ {Q : A → Type 0} (a : A)
    → Q a
    → Safely {M = M} Q (pure a)
Safely-pure a q s v = returns q v

pub Safely-fail :
    {M A : Type 0} ⦃inv : MemoryInvariant M⦄ {Q : A → Type 0} (e : CpuError)
    → Safely {M = M} Q (fail e)
unfolding fail
Safely-fail e s v = raises v

-- The two branches of a conditional.
pub Safely-if :
    {M A : Type 0} ⦃inv : MemoryInvariant M⦄ {Q : A → Type 0} (b : Bool) {m k : Exec M A}
    → Safely Q m
    → Safely Q k
    → Safely Q (if b then m else k)
Safely-if true h k = h
Safely-if false h k = k

-- The same, with what the test says.
pub Safely-cases :
    {M A : Type 0} ⦃inv : MemoryInvariant M⦄ {Q : A → Type 0} (b : Bool) {m k : Exec M A}
    → (b ≡ true → Safely Q m)
    → (b ≡ false → Safely Q k)
    → Safely Q (if b then m else k)
Safely-cases true h k = h refl
Safely-cases false h k = k refl

module _ {M : Type 0} ⦃inv : MemoryInvariant M⦄ where
  pub reg-Safely : (i : ℕ) → i < 16 → Safely {M = M} IsU32 (reg i)
  unfolding reg
  reg-Safely i h s v = rw (lt→ltb i 16 h) (returns (v.regs_fit i) v)

  pub set_reg-Safely : (i value : ℕ) → i < 16 → IsU32 value → Safely {M = M} Done (set_reg i value)
  unfolding set_reg
  set_reg-Safely i value h fits s v = rw (lt→ltb i 16 h) (
      returns tt (record {
        regs_fit = λ j. fits_at j;
        memory_holds = v.memory_holds;
        cpsr_fits = v.cpsr_fits;
      }))
    where
      fits_at : (j : ℕ) → IsU32 (if j == i then value else s.regs.regs j)
      fits_at j = ground (arith, v.regs_fit j)

  pub set_pc-Safely : (value : ℕ) → IsU32 value → Safely {M = M} Done (set_pc value)
  unfolding set_pc
  set_pc-Safely value fits = set_reg-Safely 15 value (omega arith) fits

  pub push_write-Safely : (i value : ℕ) → Safely {M = M} Done (push_write i value)
  unfolding push_write
  push_write-Safely i value s v =
      returns tt
        (record { memory_holds = v.memory_holds; regs_fit = v.regs_fit; cpsr_fits = v.cpsr_fits })

  -- What is known of the status register.
  pub cpsr-Safely : Safely {M = M} (λ r. IsU32 r.bits) cpsr
  unfolding cpsr
  cpsr-Safely s v = returns v.cpsr_fits v

  pub change_cpsr-Safely :
      (change : Cpsr → Cpsr)
      → ((r : Cpsr) → IsU32 r.bits → IsU32 (change r).bits)
      → Safely {M = M} Done (change_cpsr change)
  unfolding change_cpsr
  change_cpsr-Safely change keeps s v = returns tt (record {
    memory_holds = v.memory_holds;
    regs_fit = v.regs_fit;
    cpsr_fits = keeps s.regs.cpsr v.cpsr_fits;
  })

  pub set_execution_mode-Safely :
      (mode : ExecutionMode) → Safely {M = M} Done (set_execution_mode mode)
  unfolding set_execution_mode
  set_execution_mode-Safely mode s v = returns tt (record {
    memory_holds = v.memory_holds;
    regs_fit = v.regs_fit;
    cpsr_fits = set_execution_mode-IsU32 s.regs.cpsr v.cpsr_fits mode;
  })

-- What a memory bus answers fits the width of the access, and its writes keep the invariant.
pub record ReadsFit {M : Type 0} ⦃inv : MemoryInvariant M⦄ (bus : MemoryBus M) : Type 0 where
  pub read8_fits : (m : M) (addr v : ℕ) → inv.Holds m → bus.read8 m addr ≡ Result.ok v → IsU8 v
  pub read16_fits : (m : M) (addr v : ℕ) → inv.Holds m → bus.read16 m addr ≡ Result.ok v → IsU16 v
  pub read32_fits : (m : M) (addr v : ℕ) → inv.Holds m → bus.read32 m addr ≡ Result.ok v → IsU32 v
  pub write8_holds : (m : M) (addr v : ℕ) → IsU8 v → inv.Holds m → inv.Holds (bus.write8 m addr v).1
  pub write16_holds :
      (m : M) (addr v : ℕ) → IsU16 v → inv.Holds m → inv.Holds (bus.write16 m addr v).1
  pub write32_holds :
      (m : M) (addr v : ℕ) → IsU32 v → inv.Holds m → inv.Holds (bus.write32 m addr v).1

module _ {M : Type 0} ⦃inv : MemoryInvariant M⦄ (s : Machine M) (v : IsValid s) where
  of_read-Safe :
      {A : Type 0} {Q : A → Type 0} (r : Result MemoryAccessError A)
      → ((a : A) → r ≡ Result.ok a → Q a)
      → Safe Q (of_read s r)
  of_read-Safe (Result.ok a) h = returns (h a refl) v
  of_read-Safe (Result.err e) h = raises v

  of_write-Safe :
      (x : Result MemoryAccessError (Unit {0}) × M) → inv.Holds x.1 → Safe Done (of_write s x)
  of_write-Safe (Result.ok a, m) h =
      returns tt (record { memory_holds = h; regs_fit = v.regs_fit; cpsr_fits = v.cpsr_fits })
  of_write-Safe (Result.err e, m) h =
      raises (record { memory_holds = h; regs_fit = v.regs_fit; cpsr_fits = v.cpsr_fits })

module _ {M : Type 0} ⦃inv : MemoryInvariant M⦄ ⦃bus : MemoryBus M⦄ (fit : ReadsFit bus) where
  pub read8-Safely : (addr : ℕ) → Safely {M = M} IsU8 (read8 addr)
  unfolding read8
  read8-Safely addr s v = of_read-Safe s v _ λ a. fit.read8_fits s.memory addr a v.memory_holds

  pub read16-Safely : (addr : ℕ) → Safely {M = M} IsU16 (read16 addr)
  unfolding read16
  read16-Safely addr s v = of_read-Safe s v _ λ a. fit.read16_fits s.memory addr a v.memory_holds

  pub read32-Safely : (addr : ℕ) → Safely {M = M} IsU32 (read32 addr)
  unfolding read32
  read32-Safely addr s v = of_read-Safe s v _ λ a. fit.read32_fits s.memory addr a v.memory_holds

  pub write8-Safely : (addr value : ℕ) → IsU8 value → Safely {M = M} Done (write8 addr value)
  unfolding write8
  write8-Safely addr value h s v =
      of_write-Safe s v _ (fit.write8_holds s.memory addr value h v.memory_holds)

  pub write16-Safely : (addr value : ℕ) → IsU16 value → Safely {M = M} Done (write16 addr value)
  unfolding write16
  write16-Safely addr value h s v =
      of_write-Safe s v _ (fit.write16_holds s.memory addr value h v.memory_holds)

  pub write32-Safely : (addr value : ℕ) → IsU32 value → Safely {M = M} Done (write32 addr value)
  unfolding write32
  write32-Safely addr value h s v =
      of_write-Safe s v _ (fit.write32_holds s.memory addr value h v.memory_holds)
