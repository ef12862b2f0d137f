-- ===== src/Runtime/Stage.antt =====
-- `Runtime::run_stage` (crates/vmrp-runtime/src/lib.rs): at most `step_limit` steps, until one stops.
use vmrp_rust.Prelude.{ℕ, zero, suc, ◌+◌, ◌<◌, ◌≡◌, List, [], ◌∷◌, arith, refl}

-- The bytes of a string.
abbrev pub String : Type 0
String = List ℕ

pub data RuntimeStepResult : Type 0 where
  host_step : RuntimeStepResult
  guest_step : RuntimeStepResult
  stop : String → RuntimeStepResult

pub record StageResult : Type 0 where
  pub label : String
  pub executed : ℕ
  pub stop_reason : String

-- "step budget exhausted"
abbrev pub budget_exhausted : String
budget_exhausted =
    115 ∷ 116 ∷ 101 ∷ 112 ∷ 32 ∷ 98 ∷ 117 ∷ 100 ∷ 103 ∷ 101 ∷ 116 ∷ 32 ∷ 101 ∷ 120 ∷ 104 ∷ 97 ∷ 117
    ∷ 115 ∷ 116 ∷ 101 ∷ 100 ∷ []

-- `step` changes the state that its closure holds.
module _ {S : Type 0} (step : S → RuntimeStepResult × S) where
  unfoldable pub stage_loop : ℕ → ℕ → String → S → (ℕ × String) × S
  stage_loop zero executed stop_reason s = ((executed, stop_reason), s)
  stage_loop (suc left) executed stop_reason s = elim (step s).0 [
    | host_step ↦ stage_loop left (suc executed) stop_reason (step s).1
    | guest_step ↦ stage_loop left (suc executed) stop_reason (step s).1
    | stop reason ↦ ((executed, reason), (step s).1)
  ]

  unfoldable pub run_stage : String → ℕ → S → StageResult × S
  unfolding stage_loop
  run_stage label step_limit s =
      let r = stage_loop step_limit 0 budget_exhausted s in
      (record { label = label; executed = r.0.0; stop_reason = r.0.1 }, r.1)

  -- Steps none of which stops.
  pub data Went : ℕ → S → S → Type 0 where
    here : {s : S} → Went 0 s s
    host : {n : ℕ} {s t : S} → (step s).0 ≡ host_step → Went n (step s).1 t → Went (suc n) s t
    guest : {n : ℕ} {s t : S} → (step s).0 ≡ guest_step → Went n (step s).1 t → Went (suc n) s t

  -- The end of a stage: the limit is used up, or a step before the limit stopped it.
  pub data Staged (limit done : ℕ) (s : S) : (ℕ × String) × S → Type 0 where
    budget :
        {t : S} {executed : ℕ}
        → executed ≡ done + limit
        → Went limit s t
        → Staged limit done s ((executed, budget_exhausted), t)
    stopped :
        {n executed : ℕ} {t : S} {reason : String}
        → executed ≡ done + n
        → n < limit
        → Went n s t
        → (step t).0 ≡ stop reason
        → Staged limit done s ((executed, reason), (step t).1)

  longer :
      (limit done : ℕ) (s : S) (x : (ℕ × String) × S)
      → ((n : ℕ) (t : S) → Went n (step s).1 t → Went (suc n) s t)
      → Staged limit (suc done) (step s).1 x
      → Staged (suc limit) done s x
  longer limit done s _ f (budget e w) = budget (omega (arith, e)) (f _ _ w)
  longer limit done s _ f (stopped e b w p) = stopped (omega (arith, e)) (omega arith) (f _ _ w) p

  stage_loop-Staged :
      (limit done : ℕ) (s : S) → Staged limit done s (stage_loop limit done budget_exhausted s)
  unfolding stage_loop
  stage_loop-Staged zero done s = budget (omega arith) here
  stage_loop-Staged (suc limit) done s =
      elim (step s).0
          as (λ r.
            (step s).0 ≡ r
            → Staged (suc limit) done s (elim r [
              | host_step ↦ stage_loop limit (suc done) budget_exhausted (step s).1
              | guest_step ↦ stage_loop limit (suc done) budget_exhausted (step s).1
              | stop reason ↦ ((done, reason), (step s).1)
            ])) [
              | host_step ↦ λ p.
                  longer limit done s _ (λ _ _ w. host p w)
                    (stage_loop-Staged limit (suc done) (step s).1)
              | guest_step ↦ λ p.
                  longer limit done s _ (λ _ _ w. guest p w)
                    (stage_loop-Staged limit (suc done) (step s).1)
              | stop reason ↦ λ p. stopped {n = 0} (omega arith) (omega arith) here p
            ]
        refl

  -- What a stage answers: its label, and the count of steps with the reason of its end.
  abbrev pub StageEnd : String → ℕ → S → StageResult × S → Type 0
  StageEnd label limit s (r, t) =
      (r.label ≡ label) × Staged limit 0 s ((r.executed, r.stop_reason), t)

  -- A stage runs the steps until the first that stops, which is not counted and gives the reason, or
  -- until it has run `step_limit` steps, none of which stopped, with the reason of the budget; its
  -- state is the one after the last step that ran.
  pub run_stage-Staged :
      (label : String) (step_limit : ℕ) (s : S)
      → StageEnd label step_limit s (run_stage label step_limit s)
  unfolding run_stage
  run_stage-Staged label step_limit s = (refl, stage_loop-Staged step_limit 0 s)
