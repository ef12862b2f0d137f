-- ===== src/Events/Tests.antt =====
-- Requests and keys, and the theorems at concrete inputs.
use vmrp_rust.Prelude.{◌≡◌, refl, none, some, List, [], ◌∷◌}
use vmrp_rust.Prelude.Int.{pos}
use vmrp_rust.Runtime.{new}
use vmrp_rust.Events.{
  HostAppEvent, empty, post_start, post_stop, post_event, drain_host_runtime_events,
}
use vmrp_rust.Events.Drained.{
  Request, start_after, stop_it, send, post_all, apply_all, drain_host_runtime_events-post_all,
}
use vmrp_rust.Events.Input.{translate_win32_pointer_event}

abbrev event : HostAppEvent
event = record { code = pos 8; p0 = 1; p1 = 2 }

abbrev requests : List Request
requests = start_after 10 ∷ send event ∷ stop_it ∷ start_after 20 ∷ send event ∷ []

requests-new :
    ((drain_host_runtime_events new (post_all requests empty)).0).timer_deadline_ms ≡ some 20
unfolding drain_host_runtime_events post_start post_stop post_event
requests-new = refl

-- The pointer at (3, 4) goes down.
pointer-down :
    translate_win32_pointer_event 0x201 0x0004_0003 ≡ some (record { code = pos 2; p0 = 3; p1 = 4 })
unfolding translate_win32_pointer_event
pointer-down = refl

drain_host_runtime_events-post_all_example :
    ((drain_host_runtime_events new (post_all requests empty)).0
      ≡ apply_all requests ((drain_host_runtime_events new empty).0))
    × ((drain_host_runtime_events new (post_all requests empty)).1.timer_command ≡ none)
    × ((drain_host_runtime_events new (post_all requests empty)).1.app_events ≡ [])
drain_host_runtime_events-post_all_example = drain_host_runtime_events-post_all requests empty new
