-- ===== src/Runtime/Deadline.antt =====
-- The timer of crates/vmrp-runtime/src/lib.rs: when a poll finds its deadline reached.
use vmrp_rust.Prelude.{
  ℕ, ◌+◌, ◌-◌, ◌^◌, ◌%◌, ◌<◌, ◌≡◌, ◌∙◌, Option, none, some, List, [], ◌∷◌, ◌++◌, leb, Bool, true,
  false, if◌then◌else◌, arith, refl, ap, All,
}
use vmrp_rust.Runtime.{
  RuntimeEvent, timer, Runtime, push_event, pop_event, pop_front, start_timer, advance_time,
  saturating_add64, poll_timers, time_until_next_timer_ms,
}
use vmrp_rust.Runtime.Order.{
  Call, push, pop, advance, start, cancel, sync, poll, perform, perform_all,
}

-- Calls that leave the timer alone, and the wall clock.
abbrev pub IsQuiet : Call → Type 0
IsQuiet (push event) = Unit
IsQuiet pop = Unit
IsQuiet (advance delta_ms) = Unit
IsQuiet _ = ⊥

-- The time that calls advance.
abbrev pub passed : List Call → ℕ
passed [] = 0
passed (advance delta_ms ∷ calls) = delta_ms + passed calls
passed (_ ∷ calls) = passed calls

-- A state with a given clock and deadline.
abbrev At : ℕ → Option ℕ → Runtime → Type 0
At now deadline r = (r.now_ms ≡ now) × (r.timer_deadline_ms ≡ deadline)

pop_front-At :
    (r : Runtime) (q : List RuntimeEvent) → At r.now_ms r.timer_deadline_ms (pop_front r q).1
pop_front-At r [] = (refl, refl)
pop_front-At r (event ∷ rest) = (refl, refl)

perform_all-At :
    (calls : List Call)
    → All IsQuiet calls
    → (r : Runtime) → r.now_ms < 2 ^ 64
    → At (saturating_add64 r.now_ms (passed calls)) r.timer_deadline_ms (perform_all calls r)
unfolding push_event pop_event advance_time
perform_all-At [] q r h = (omega (arith, h), refl)
perform_all-At (push event ∷ calls) q r h = perform_all-At calls q.1 (perform (push event) r) h
perform_all-At (start _ ∷ calls) q r h = absurd q.0
perform_all-At (cancel ∷ calls) q r h = absurd q.0
perform_all-At (sync _ ∷ calls) q r h = absurd q.0
perform_all-At (poll ∷ calls) q r h = absurd q.0
perform_all-At (pop ∷ calls) q r h =
    let p = pop_front-At r r.queue in
    let later = perform_all-At calls q.1 (perform pop r) (omega (arith, p.0, h)) in
    (omega (arith, later.0, p.0), later.1 ∙ p.1)
perform_all-At (advance delta_ms ∷ calls) q r h =
    let later = perform_all-At calls q.1 (perform (advance delta_ms) r) (omega arith) in
    (omega (arith, later.0), later.1)

-- A poll that finds the deadline reached queues one event and clears the timer, and else nothing
-- changes.
abbrev pub Polled : Bool → Runtime → Type 0
Polled true r =
    ((poll_timers r).queue ≡ r.queue ++ timer ∷ []) × ((poll_timers r).timer_deadline_ms ≡ none)
Polled false r = poll_timers r ≡ r

poll_timers-Polled :
    (r : Runtime) (deadline : ℕ)
    → r.timer_deadline_ms ≡ some deadline
    → (fires : Bool) → leb deadline r.now_ms ≡ fires
    → Polled fires r
unfolding poll_timers
poll_timers-Polled r deadline p true q = rw (p, q) (refl, refl)
poll_timers-Polled r deadline p false q = rw (p, q)

exact : (now delay : ℕ) → now + delay < 2 ^ 64 → saturating_add64 now delay ≡ now + delay
exact now delay h = omega (arith, h)

rest_lem :
    (now delay gone : ℕ)
    → delay < 2 ^ 32
    → now + delay < 2 ^ 64
    → (if leb (saturating_add64 now delay) (saturating_add64 now gone)
        then 0
        else (saturating_add64 now delay - saturating_add64 now gone) % 2 ^ 32)
      ≡ delay - gone
rest_lem now delay gone small room = ground (arith, small, room)

-- From a clock with room for the delay, after a timer is started and any calls that push, pop or
-- advance the time: a poll queues the timer's event and clears the timer exactly when the time that
-- has passed is at least the delay, and else it changes nothing; and the time that is said to remain
-- is the rest of the delay.
pub start_timer-Polled :
    (delay_ms : ℕ) (calls : List Call) (r : Runtime)
    → All IsQuiet calls
    → delay_ms < 2 ^ 32
    → r.now_ms + delay_ms < 2 ^ 64
    → Polled (leb delay_ms (passed calls)) (perform_all calls (start_timer delay_ms r))
      × (time_until_next_timer_ms (perform_all calls (start_timer delay_ms r))
          ≡ some (delay_ms - passed calls))
unfolding start_timer time_until_next_timer_ms
start_timer-Polled delay_ms calls r quiet small room =
    let p = perform_all-At calls quiet (start_timer delay_ms r) (omega (arith, room)) in
    (
      poll_timers-Polled _ (r.now_ms + delay_ms) (p.1 ∙ ap some (exact r.now_ms delay_ms room))
          (leb delay_ms (passed calls)) (ground (arith, p.0)),
      rw (p.1, p.0) (ap some (rest_lem r.now_ms delay_ms (passed calls) small room)),
    )
