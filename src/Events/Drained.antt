-- ===== src/Events/Drained.antt =====
-- The runtime gets what the guest asked for (`drain_host_runtime_events` of
-- apps/vmrp-windows/src/main.rs), as if it had been asked directly.
use vmrp_rust.Prelude.{ℕ, ◌≡◌, refl, ap, ◌∙◌, sym, Option, none, some, List, [], ◌∷◌, ◌++◌}
use vmrp_rust.Runtime.{Runtime, guest_event, push_event, start_timer, stop_timer}
use vmrp_rust.Events.{
  HostTimerCommand, start, stop, HostAppEvent, Pending, post_start, post_stop, post_event,
  take_timer_command, obey, push_events, drain_host_runtime_events,
}

-- What a guest asks for.
pub data Request : Type 0 where
  start_after : ℕ → Request
  stop_it : Request
  send : HostAppEvent → Request

abbrev pub post_request : Request → Pending → Pending
post_request (start_after delay) p = post_start delay p
post_request stop_it p = post_stop p
post_request (send event) p = post_event event p

abbrev pub post_all : List Request → Pending → Pending
post_all [] p = p
post_all (q ∷ qs) p = post_all qs (post_request q p)

-- The same requests, made to the runtime itself.
abbrev pub apply : Request → Runtime → Runtime
apply (start_after delay) r = start_timer delay r
apply stop_it r = stop_timer r
apply (send event) r = push_event (guest_event event.code event.p0 event.p1) r

abbrev pub apply_all : List Request → Runtime → Runtime
apply_all [] r = r
apply_all (q ∷ qs) r = apply_all qs (apply q r)

push_events-append :
    (es : List HostAppEvent) (e : HostAppEvent) (r : Runtime)
    → push_events (es ++ e ∷ []) r ≡ push_event (guest_event e.code e.p0 e.p1) (push_events es r)
unfolding push_events
push_events-append [] e r = refl
push_events-append (x ∷ es) e r =
    push_events-append es e (push_event (guest_event x.code x.p0 x.p1) r)

push_events-start :
    (es : List HostAppEvent) (delay : ℕ) (r : Runtime)
    → push_events es (start_timer delay r) ≡ start_timer delay (push_events es r)
unfolding push_events push_event start_timer
push_events-start [] delay r = refl
push_events-start (x ∷ es) delay r =
    push_events-start es delay (push_event (guest_event x.code x.p0 x.p1) r)

push_events-stop :
    (es : List HostAppEvent) (r : Runtime)
    → push_events es (stop_timer r) ≡ stop_timer (push_events es r)
unfolding push_events push_event stop_timer
push_events-stop [] r = refl
push_events-stop (x ∷ es) r = push_events-stop es (push_event (guest_event x.code x.p0 x.p1) r)

start-obey :
    (c : Option HostTimerCommand) (delay : ℕ) (r : Runtime)
    → start_timer delay (obey c r) ≡ start_timer delay r
unfolding start_timer stop_timer
start-obey none delay r = refl
start-obey (some (start d)) delay r = refl
start-obey (some stop) delay r = refl

stop-obey : (c : Option HostTimerCommand) (r : Runtime) → stop_timer (obey c r) ≡ stop_timer r
unfolding start_timer stop_timer
stop-obey none r = refl
stop-obey (some (start d)) r = refl
stop-obey (some stop) r = refl

-- The runtime that a drain leaves.
abbrev drained : Runtime → Pending → Runtime
drained r p = push_events p.app_events (obey p.timer_command r)

-- One request at the end.
drained-post_request :
    (q : Request) (p : Pending) (r : Runtime) → drained r (post_request q p) ≡ apply q (drained r p)
unfolding post_start post_stop post_event
drained-post_request (start_after delay) p r =
    ap (push_events p.app_events) (sym (start-obey p.timer_command delay r))
    ∙ push_events-start p.app_events delay (obey p.timer_command r)
drained-post_request stop_it p r =
    ap (push_events p.app_events) (sym (stop-obey p.timer_command r))
    ∙ push_events-stop p.app_events (obey p.timer_command r)
drained-post_request (send event) p r =
    push_events-append p.app_events event (obey p.timer_command r)

drained-post_all :
    (qs : List Request) (p : Pending) (r : Runtime)
    → drained r (post_all qs p) ≡ apply_all qs (drained r p)
drained-post_all [] p r = refl
drained-post_all (q ∷ qs) p r =
    drained-post_all qs (post_request q p) r ∙ ap (apply_all qs) (drained-post_request q p r)

-- Whatever the host holds, requests that it gets one after the other and hands over in one drain have the
-- effect on the runtime's timer, clock and queue that a drain before them and then the same requests made
-- to the runtime, in order, have; after the drain the host holds no command and no event.
pub drain_host_runtime_events-post_all :
    (qs : List Request) (p : Pending) (r : Runtime)
    → ((drain_host_runtime_events r (post_all qs p)).0
        ≡ apply_all qs ((drain_host_runtime_events r p).0))
      × ((drain_host_runtime_events r (post_all qs p)).1.timer_command ≡ none)
      × ((drain_host_runtime_events r (post_all qs p)).1.app_events ≡ [])
unfolding drain_host_runtime_events take_timer_command
drain_host_runtime_events-post_all qs p r = (drained-post_all qs p r, refl, refl)
