-- ===== src/Runtime/Order.antt =====
-- The queue of crates/vmrp-runtime/src/lib.rs over any calls: events leave it in the order in which
-- they came, the timer's among them.
use vmrp_rust.Prelude.{
  ℕ, ◌≡◌, ◌∙◌, Option, none, some, List, [], ◌∷◌, ◌++◌, leb, ltb, ◌%◌, ◌^◌, Bool, true, false,
  if◌then◌else◌, refl, ap, sym,
}
use vmrp_rust.Runtime.{
  RuntimeEvent, timer, Runtime, push_event, pop_event, start_timer, stop_timer, advance_time,
  sync_wall_clock, poll_timers, pop_front, poll_deadline,
}

pub data Call : Type 0 where
  push : RuntimeEvent → Call
  pop : Call
  start : ℕ → Call
  cancel : Call
  advance : ℕ → Call
  sync : ℕ → Call
  poll : Call

-- The state after a call.
abbrev pub perform : Call → Runtime → Runtime
perform (push event) r = push_event event r
perform pop r = (pop_event r).1
perform (start delay_ms) r = start_timer delay_ms r
perform cancel r = stop_timer r
perform (advance delta_ms) r = advance_time delta_ms r
perform (sync as_millis) r = sync_wall_clock as_millis r
perform poll r = poll_timers r

abbrev pub perform_all : List Call → Runtime → Runtime
perform_all [] r = r
perform_all (call ∷ calls) r = perform_all calls (perform call r)

abbrev of_option : Option RuntimeEvent → List RuntimeEvent
of_option none = []
of_option (some event) = event ∷ []

-- The timer's event, when its deadline has come.
abbrev pub due : ℕ → Option ℕ → List RuntimeEvent
due now none = []
due now (some deadline) = if leb deadline now then timer ∷ [] else []

-- What a call puts into the queue.
abbrev pub came : Call → Runtime → List RuntimeEvent
came (push event) r = event ∷ []
came poll r = due r.now_ms r.timer_deadline_ms
came _ r = []

-- What a call takes from the queue.
abbrev pub left : Call → Runtime → List RuntimeEvent
left pop r = of_option (pop_event r).0
left _ r = []

abbrev pub all_came : List Call → Runtime → List RuntimeEvent
all_came [] r = []
all_came (call ∷ calls) r = came call r ++ all_came calls (perform call r)

abbrev pub all_left : List Call → Runtime → List RuntimeEvent
all_left [] r = []
all_left (call ∷ calls) r = left call r ++ all_left calls (perform call r)

append_assoc : (xs ys zs : List RuntimeEvent) → (xs ++ ys) ++ zs ≡ xs ++ (ys ++ zs)
append_assoc [] ys zs = refl
append_assoc (x ∷ xs) ys zs = ap (λ l. x ∷ l) (append_assoc xs ys zs)

append_nil : (xs : List RuntimeEvent) → xs ++ [] ≡ xs
append_nil [] = refl
append_nil (x ∷ xs) = ap (λ l. x ∷ l) (append_nil xs)

pop_front-queue :
    (r : Runtime) (q : List RuntimeEvent)
    → q ≡ r.queue
    → of_option ((pop_front r q).0) ++ (pop_front r q).1.queue ≡ q
pop_front-queue r [] p = sym p
pop_front-queue r (event ∷ rest) p = refl

poll_deadline-queue :
    (r : Runtime) (deadline : Option ℕ)
    → (poll_deadline r deadline).queue ≡ r.queue ++ due r.now_ms deadline
poll_deadline-queue r none = sym (append_nil r.queue)
poll_deadline-queue r (some deadline) =
    elim (leb deadline r.now_ms)
      as (λ t.
        (if t
          then record r { timer_deadline_ms = none; queue = r.queue ++ timer ∷ [] }
          else r).queue
        ≡ r.queue ++ (if t then timer ∷ [] else [])) [
          | true ↦ refl
          | false ↦ sym (append_nil r.queue)
        ]

clock_change :
    (r : Runtime) (elapsed : ℕ) (t : Bool)
    → (if t then record r { now_ms = elapsed } else r).queue ≡ r.queue
clock_change r elapsed true = refl
clock_change r elapsed false = refl

-- One call: what it takes, and then the queue after it, are the queue before and what it puts in.
perform-queue :
    (call : Call) (r : Runtime) → left call r ++ (perform call r).queue ≡ r.queue ++ came call r
unfolding push_event pop_event start_timer stop_timer advance_time sync_wall_clock poll_timers
perform-queue (push event) r = refl
perform-queue pop r = pop_front-queue r r.queue refl ∙ sym (append_nil r.queue)
perform-queue (start delay_ms) r = sym (append_nil r.queue)
perform-queue cancel r = sym (append_nil r.queue)
perform-queue (advance delta_ms) r = sym (append_nil r.queue)
perform-queue (sync as_millis) r =
    clock_change r (as_millis % 2 ^ 64) (ltb r.now_ms (as_millis % 2 ^ 64))
    ∙ sym (append_nil r.queue)
perform-queue poll r = poll_deadline-queue r r.timer_deadline_ms

-- From any state, over any calls: the events that were taken, and then those still in the queue, are
-- those in the queue before and then all that came in, in their order; what comes in is what is
-- pushed, and the timer's event at each poll that finds its deadline reached.
pub perform_all-queue :
    (calls : List Call) (r : Runtime)
    → all_left calls r ++ (perform_all calls r).queue ≡ r.queue ++ all_came calls r
perform_all-queue [] r = sym (append_nil r.queue)
perform_all-queue (call ∷ calls) r =
    append_assoc (left call r) (all_left calls (perform call r))
      (perform_all calls (perform call r)).queue
    ∙ ap (λ l. left call r ++ l) (perform_all-queue calls (perform call r))
    ∙ sym (append_assoc (left call r) (perform call r).queue (all_came calls (perform call r)))
    ∙ ap (λ l. l ++ all_came calls (perform call r)) (perform-queue call r)
    ∙ append_assoc r.queue (came call r) (all_came calls (perform call r))
