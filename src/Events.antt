-- ===== src/Events.antt =====
-- What the guest asks of the runtime: `handle_send_app_event` of crates/vmrp-platform/src/lib.rs, which
-- leaves timer commands and events with the host, and `drain_host_runtime_events` of
-- apps/vmrp-windows/src/main.rs, which hands them to the runtime.
pub mod Drained
pub mod Input
mod Tests
use vmrp_rust.Prelude.{
  ℕ, Bool, Option, none, some, List, [], ◌∷◌, ◌++◌, leb, ◌==◌, ◌&&◌, if◌then◌else◌,
}
use vmrp_rust.Prelude.Int.{ℤ, as_i32}
use vmrp_rust.Prelude.State.{Stateful, pure, modify, gets, ◌>>=◌, ◌>>◌}
use vmrp_rust.Abi.Layout.{code_address}
use vmrp_rust.Cpu.Memory.{MemoryAccessError, MemoryBus}
use vmrp_rust.Cpu.Regs.{sp_index}
use vmrp_rust.Allocator.Ext.{Host}
use vmrp_rust.Allocator.Ext.Handlers.{put, return_to_lr}
use vmrp_rust.Runtime.{Runtime, guest_event, push_event, start_timer, stop_timer}

pub data HostTimerCommand : Type 0 where
  start : ℕ → HostTimerCommand
  stop : HostTimerCommand

pub record HostAppEvent : Type 0 where
  pub code : ℤ
  pub p0 : ℕ
  pub p1 : ℕ

-- The requests that the host holds.
pub record Pending : Type 0 where
  pub timer_delay_ms : Option ℕ
  pub timer_command : Option HostTimerCommand
  pub app_events : List HostAppEvent

abbrev pub empty : Pending
empty = record { timer_delay_ms = none; timer_command = none; app_events = [] }

-- What is assigned for a start and a stop of the timer, and the event at the end of the queue.
unfoldable pub post_start : ℕ → Pending → Pending
post_start delay p = record p { timer_delay_ms = some delay; timer_command = some (start delay) }

unfoldable pub post_stop : Pending → Pending
post_stop p = record p { timer_delay_ms = none; timer_command = some stop }

unfoldable pub post_event : HostAppEvent → Pending → Pending
post_event event p = record p { app_events = p.app_events ++ event ∷ [] }

abbrev pub looks_like_legacy_send_app_event : ℕ → ℕ → Bool
looks_like_legacy_send_app_event r1 r3 = leb code_address r1 && leb code_address r3

-- The host with its requests.
pub record Mailbox (M : Type 0) : Type 0 where
  pub host : Host M
  pub pending : Pending

module _ {M : Type 0} ⦃bus : MemoryBus M⦄ where
  abbrev arg : ℕ → Stateful (Mailbox M) MemoryAccessError ℕ
  arg index = gets (λ m. m.host.regs.regs index)

  abbrev load32 : ℕ → Stateful (Mailbox M) MemoryAccessError ℕ
  load32 addr m = (bus.read32 m.host.memory addr, m)

  abbrev post : (Pending → Pending) → Stateful (Mailbox M) MemoryAccessError (Unit {0})
  post change = modify (λ m. record m { pending = change m.pending })

  unfoldable pub handle_send_app_event : Stateful (Mailbox M) MemoryAccessError (Unit {0})
  unfolding post_start post_stop post_event return_to_lr
  handle_send_app_event = do
    r0 ← arg 0
    r1 ← arg 1
    r2 ← arg 2
    r3 ← arg 3
    if looks_like_legacy_send_app_event r1 r3
        then (if r2 == 0
            then (do sp ← arg sp_index; delay ← load32 sp; post (post_start delay))
            else if r2 == 1
            then post post_stop
            else pure tt)
        else if r0 == 0
        then (if r1 == 0 then post (post_start r3) else if r1 == 1 then post post_stop else pure tt)
        else if r0 == 1
        then post (post_event (record { code = as_i32 r1; p0 = r2; p1 = r3 }))
        else pure tt
    modify (λ m. record m { host = return_to_lr (record m.host { regs = put 0 0 m.host.regs }) })

unfoldable pub take_timer_command : Pending → Option HostTimerCommand × Pending
take_timer_command p = (p.timer_command, record p { timer_command = none })

abbrev pub obey : Option HostTimerCommand → Runtime → Runtime
obey none r = r
obey (some (start delay)) r = start_timer delay r
obey (some stop) r = stop_timer r

-- The loop over `take_app_event`, which takes the first event until there is none.
unfoldable pub push_events : List HostAppEvent → Runtime → Runtime
unfolding push_event
push_events [] r = r
push_events (event ∷ rest) r =
    push_events rest (push_event (guest_event event.code event.p0 event.p1) r)

-- The first loop makes one round at most: a command that is taken leaves none.
unfoldable pub drain_host_runtime_events : Runtime → Pending → Runtime × Pending
unfolding take_timer_command start_timer stop_timer push_events
drain_host_runtime_events r p =
    let (command, rest) = take_timer_command p in
    (push_events rest.app_events (obey command r), record rest { app_events = [] })
