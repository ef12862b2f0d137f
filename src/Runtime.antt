-- ===== src/Runtime.antt =====
-- crates/vmrp-runtime/src/lib.rs: the clock of the emulator, its one timer, the queue of events and
-- the loop that runs a stage of steps.
pub mod Order
pub mod Deadline
pub mod Stage
mod Tests
use vmrp_rust.Prelude.{
  ℕ, zero, suc, ◌+◌, ◌-◌, ◌^◌, ◌%◌, min, Option, none, some, List, [], ◌∷◌, ◌++◌, ltb, leb,
  if◌then◌else◌,
}
use vmrp_rust.Prelude.Int.{ℤ}

pub data RuntimeEvent : Type 0 where
  bootstrap : RuntimeEvent
  timer : RuntimeEvent
  guest_event : (code : ℤ) (p0 p1 : ℕ) → RuntimeEvent

-- The instant that `epoch` holds is not read but by `epoch.elapsed()`.
pub record Runtime : Type 0 where
  pub now_ms : ℕ
  pub timer_deadline_ms : Option ℕ
  pub queue : List RuntimeEvent

abbrev pub new : Runtime
new = record { now_ms = 0; timer_deadline_ms = none; queue = [] }

abbrev pub saturating_add64 : ℕ → ℕ → ℕ
saturating_add64 a b = min (a + b) (2 ^ 64 - 1)

unfoldable pub push_event : RuntimeEvent → Runtime → Runtime
push_event event r = record r { queue = r.queue ++ event ∷ [] }

abbrev pub pop_front : Runtime → List RuntimeEvent → Option RuntimeEvent × Runtime
pop_front r [] = (none, r)
pop_front r (event ∷ rest) = (some event, record r { queue = rest })

unfoldable pub pop_event : Runtime → Option RuntimeEvent × Runtime
pop_event r = pop_front r r.queue

unfoldable pub start_timer : ℕ → Runtime → Runtime
start_timer delay_ms r = record r { timer_deadline_ms = some (saturating_add64 r.now_ms delay_ms) }

unfoldable pub stop_timer : Runtime → Runtime
stop_timer r = record r { timer_deadline_ms = none }

unfoldable pub advance_time : ℕ → Runtime → Runtime
advance_time delta_ms r = record r { now_ms = saturating_add64 r.now_ms delta_ms }

-- `as_millis` is what `self.epoch.elapsed().as_millis()` answers, a u128.
unfoldable pub sync_wall_clock : ℕ → Runtime → Runtime
sync_wall_clock as_millis r =
    let elapsed = as_millis % 2 ^ 64 in
    if ltb r.now_ms elapsed then record r { now_ms = elapsed } else r

abbrev pub remaining : ℕ → Option ℕ → Option ℕ
remaining now none = none
remaining now (some deadline) = some (if leb deadline now then 0 else (deadline - now) % 2 ^ 32)

unfoldable pub time_until_next_timer_ms : Runtime → Option ℕ
time_until_next_timer_ms r = remaining r.now_ms r.timer_deadline_ms

abbrev pub poll_deadline : Runtime → Option ℕ → Runtime
poll_deadline r none = r
poll_deadline r (some deadline) =
    if leb deadline r.now_ms
    then record r { timer_deadline_ms = none; queue = r.queue ++ timer ∷ [] }
    else r

unfoldable pub poll_timers : Runtime → Runtime
poll_timers r = poll_deadline r r.timer_deadline_ms
