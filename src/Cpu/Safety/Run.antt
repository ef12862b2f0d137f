-- ===== src/Cpu/Safety/Run.antt =====
-- `Cpu::step` and `Cpu::run_until` of crates/vmrp-cpu/src/cpu.rs: no panic, valid states, and the
-- steps that a run makes.
use vmrp_rust.Prelude.{ℕ, zero, suc, ◌<◌, ◌≡◌, refl, ◌∙◌, ap, arith}
use vmrp_rust.Cpu.Memory.{MemoryBus}
use vmrp_rust.Cpu.Machine.{Machine, Outcome, ok, err, CpuError, step_limit_exceeded, StepTrace}
use vmrp_rust.Cpu.Safety.{MemoryInvariant, IsValid, Safe, returns, raises, ReadsFit}
use vmrp_rust.Cpu.Safety.Step.{step_machine-Safely}
use vmrp_rust.Cpu.Step.{Cpu, start, finish, step, limit_reached, after_step, run_rounds, run_until}

-- An outcome that is a result or an error, with a valid cpu.
pub data Ends {M A : Type 0} ⦃inv : MemoryInvariant M⦄ : Outcome A × Cpu M → Type 0 where
  answers : {a : A} {c : Cpu M} → IsValid (start c) → Ends (ok a, c)
  fails : {e : CpuError} {c : Cpu M} → IsValid (start c) → Ends (err e, c)

-- An outcome that is an error, with a valid cpu.
pub data Fails {M A : Type 0} ⦃inv : MemoryInvariant M⦄ : Outcome A × Cpu M → Type 0 where
  fails_with : {e : CpuError} {c : Cpu M} → IsValid (start c) → Fails (err e, c)

finish-Ends :
    {M A : Type 0} ⦃inv : MemoryInvariant M⦄ {Q : A → Type 0} {x : Outcome A × Machine M}
    → Safe Q x
    → Ends (finish x)
finish-Ends (returns q v) =
    answers
      (record { memory_holds = v.memory_holds; regs_fit = v.regs_fit; cpsr_fits = v.cpsr_fits })
finish-Ends (raises v) =
    fails (record { memory_holds = v.memory_holds; regs_fit = v.regs_fit; cpsr_fits = v.cpsr_fits })

module _ {M : Type 0} ⦃inv : MemoryInvariant M⦄ ⦃bus : MemoryBus M⦄ (fit : ReadsFit bus) where
  -- Over a bus whose answers fit their width and whose writes keep the invariant of the memory,
  -- from a cpu whose registers and status are u32 and whose memory keeps its invariant, one step,
  -- whatever the opcode it fetches, ends in a trace or an error, never in a panic, and leaves such
  -- a cpu.
  pub step-Ends : (c : Cpu M) → IsValid (start c) → Ends (step c)
  unfolding step
  step-Ends c v = finish-Ends (step_machine-Safely fit (start c) v)

  after_step-Fails :
      (x : Outcome StepTrace × Cpu M) (rest : Cpu M → Outcome (Unit {0}) × Cpu M)
      → Ends x
      → ((c : Cpu M) → IsValid (start c) → Fails (rest c))
      → Fails (after_step x rest)
  unfolding after_step
  after_step-Fails _ rest (answers {c = c} v) h = h c v
  after_step-Fails _ rest (fails v) h = fails_with v

  run_rounds-Fails :
      (max_steps rounds : ℕ) (c : Cpu M) → IsValid (start c) → Fails (run_rounds max_steps rounds c)
  unfolding run_rounds limit_reached
  run_rounds-Fails max_steps zero c v = fails_with v
  run_rounds-Fails max_steps (suc rounds) c v =
      after_step-Fails (step c) (run_rounds max_steps rounds) (step-Ends c v)
        (run_rounds-Fails max_steps rounds)

  -- Over such a bus, a run from a valid cpu always ends in an error, never in `Ok` nor in a panic, with a valid cpu.
  pub run_until-Fails :
      (max_steps : ℕ) (c : Cpu M) → IsValid (start c) → Fails (run_until max_steps c)
  unfolding run_until
  run_until-Fails max_steps c v = run_rounds-Fails max_steps max_steps c v

-- `n` steps in a row that all succeed.
pub data Steps {M : Type 0} ⦃bus : MemoryBus M⦄ : ℕ → Cpu M → Cpu M → Type 0 where
  done : {c : Cpu M} → Steps 0 c c
  next :
      {n : ℕ} {c d e : Cpu M} (trace : StepTrace)
      → step c ≡ (ok trace, d)
      → Steps n d e
      → Steps (suc n) c e

module _ {M : Type 0} ⦃bus : MemoryBus M⦄ where
  run_rounds-limit :
      (max_steps n : ℕ) (c d : Cpu M)
      → Steps n c d
      → run_rounds max_steps n c ≡ (err (step_limit_exceeded max_steps (d.regs.regs 15)), d)
  unfolding run_rounds limit_reached after_step
  run_rounds-limit max_steps _ c _ done = refl
  run_rounds-limit max_steps _ c d (next {n = n} {d = c'} trace p steps) =
      ap (λ x. after_step x (run_rounds max_steps n)) p ∙ run_rounds-limit max_steps n c' d steps

  -- When `max_steps` steps in a row succeed, the run makes exactly these and reports the step limit
  -- with the pc that they end at.
  pub run_until-limit :
      (max_steps : ℕ) (c d : Cpu M)
      → Steps max_steps c d
      → run_until max_steps c ≡ (err (step_limit_exceeded max_steps (d.regs.regs 15)), d)
  unfolding run_until
  run_until-limit max_steps c d steps = run_rounds-limit max_steps max_steps c d steps

  run_rounds-error :
      (max_steps rounds n : ℕ) (c d d' : Cpu M) (e : CpuError)
      → n < rounds
      → Steps n c d
      → step d ≡ (err e, d')
      → run_rounds max_steps rounds c ≡ (err e, d')
  unfolding run_rounds after_step
  run_rounds-error max_steps zero n c d d' e h steps q = absurd (omega arith)
  run_rounds-error max_steps (suc rounds) _ c _ d' e h done q =
      ap (λ x. after_step x (run_rounds max_steps rounds)) q
  run_rounds-error max_steps (suc rounds) _ c d d' e h (next {n = n} {d = c'} trace p steps) q =
      ap (λ x. after_step x (run_rounds max_steps rounds)) p
      ∙ run_rounds-error max_steps rounds n c' d d' e (omega arith) steps q

  -- When fewer than `max_steps` steps succeed and the next one fails, the run stops there, with the
  -- error and the cpu of that step.
  pub run_until-error :
      (max_steps n : ℕ) (c d d' : Cpu M) (e : CpuError)
      → n < max_steps
      → Steps n c d
      → step d ≡ (err e, d')
      → run_until max_steps c ≡ (err e, d')
  unfolding run_until
  run_until-error max_steps n c d d' e h steps q =
      run_rounds-error max_steps max_steps n c d d' e h steps q
