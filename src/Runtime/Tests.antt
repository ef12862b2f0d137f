-- ===== src/Runtime/Tests.antt =====
-- Runs of the runtime's queue, timer and stages, and the theorems at concrete inputs.
use vmrp_rust.Prelude.{
  ℕ, suc, ◌-◌, ◌≡◌, refl, some, List, [], ◌∷◌, ◌++◌, arith, leb, ◌==◌, if◌then◌else◌,
}
use vmrp_rust.Prelude.Int.{pos}
use vmrp_rust.Runtime.{
  new, bootstrap, timer, guest_event, start_timer, time_until_next_timer_ms, push_event, pop_event,
  poll_timers, advance_time, sync_wall_clock,
}
use vmrp_rust.Runtime.Order.{
  Call, push, pop, start, advance, poll, sync, perform_all, all_left, all_came, perform_all-queue,
}
use vmrp_rust.Runtime.Deadline.{Polled, passed, start_timer-Polled}
use vmrp_rust.Runtime.Stage.{
  RuntimeStepResult, guest_step, stop, run_stage, stage_loop, StageEnd, run_stage-Staged,
  budget_exhausted,
}

abbrev calls : List Call
calls = push bootstrap ∷ start 10 ∷ advance 4 ∷ poll ∷ pop ∷ sync 20 ∷ poll ∷ pop ∷ pop ∷ []

all_left-calls : all_left calls new ≡ bootstrap ∷ timer ∷ []
unfolding push_event pop_event start_timer advance_time poll_timers sync_wall_clock
all_left-calls = refl

abbrev quiet_calls : List Call
quiet_calls = advance 7 ∷ push (guest_event (pos 1) 2 3) ∷ advance 5 ∷ []

start_timer-Polled_example :
    Polled (leb 10 (passed quiet_calls)) (perform_all quiet_calls (start_timer 10 new))
    × (time_until_next_timer_ms (perform_all quiet_calls (start_timer 10 new))
        ≡ some (10 - passed quiet_calls))
start_timer-Polled_example =
    start_timer-Polled 10 quiet_calls new (tt, (tt, (tt, tt))) (omega arith) (omega arith)

-- A counter that stops at three.
abbrev count : ℕ → RuntimeStepResult × ℕ
count n = if n == 3 then (stop [], 3) else (guest_step, suc n)

run_stage-count : (run_stage count [] 10 0).0.executed ≡ 3
unfolding run_stage stage_loop
run_stage-count = refl

run_stage-short : (run_stage count [] 2 0).0.stop_reason ≡ budget_exhausted
unfolding run_stage stage_loop
run_stage-short = refl

run_stage-Staged_example : StageEnd count [] 10 0 (run_stage count [] 10 0)
run_stage-Staged_example = run_stage-Staged count [] 10 0

perform_all-queue_example :
    all_left calls new ++ (perform_all calls new).queue ≡ new.queue ++ all_came calls new
perform_all-queue_example = perform_all-queue calls new
