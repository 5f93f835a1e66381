-- ===== src/Reactor/Loop.antt =====
-- The loop of src/reactor/reactor.c. The callbacks of the program are a parameter: what the n-th
-- does to the reactor at an event. A call of NULL fails. The fuel bounds the rounds of a loop.
use libreactor_refactor.Prelude.{
  ◌>>=◌, ℕ, zero, suc, Option, none, some, [], get_elem?, length, ltb, ◌==◌, if◌then◌else◌,
}
use libreactor_refactor.Words.{add64, sub64, mul64}
use libreactor_refactor.Pool.{pool_construct, pool_size}
use libreactor_refactor.Reactor.Defs.{Ring, Cqe, Enter, reactor_ring_cqe, reactor_ring_update}
use libreactor_refactor.Reactor.State.{
  Callback, User, Event, Reactor, reactor_event_define, reactor_free_user, sign_extend,
}

-- `fresh` is the ring of `reactor_ring_construct`, and `object` the size of a `reactor_user`.
unfoldable pub reactor_construct : Ring → ℕ → Reactor → Reactor
unfolding pool_construct
reactor_construct fresh object r =
    let new = record r { ring = fresh; users = pool_construct object; next = [] } in
    let made = if r.references == 0 then new else r in
    record made { references = add64 made.references 1 }

-- The rings, the pool and the vector are gone when the last reference is.
unfoldable pub reactor_destruct : Ring → ℕ → Reactor → Reactor
unfolding pool_construct
reactor_destruct gone object r =
    let left = record r { references = sub64 r.references 1 } in
    if left.references == 0
    then record left { ring = gone; users = pool_construct object; next = [] }
    else left

-- `seconds` and `nanoseconds` are what the clock shows.
unfoldable pub reactor_now : ℕ → ℕ → Reactor → Reactor × ℕ
reactor_now seconds nanoseconds r =
    let read = add64 (mul64 seconds 1_000_000_000) nanoseconds in
    let s = if r.time == 0 then record r { time = read } else r in (s, s.time)

module _ (clients : ℕ → Event → Reactor → Option Reactor) (enter : Enter) where
  unfoldable pub called : Callback → Event → Reactor → Option Reactor
  called Callback.null event r = none
  called Callback.reactor_user_callback event r = some r
  called (Callback.client n) event r = clients n event r

  unfoldable pub reactor_call : User → ℕ → ℕ → Reactor → Option Reactor
  unfolding called reactor_event_define
  reactor_call user type value r =
      called user.callback (reactor_event_define user.state type value) r

  -- The loop over `reactor.next`, which the callbacks may extend.
  unfoldable pub run_next : ℕ → ℕ → Reactor → Option Reactor
  unfolding reactor_call reactor_free_user
  run_next zero i r = none
  run_next (suc fuel) i r =
      let rest = (do
        address ← get_elem? r.next i
        s ← reactor_call (r.user address) 0 0 r
        run_next fuel (suc i) (reactor_free_user s address)) in
      if ltb i (length r.next) then rest else some (record r { next = [] })

  -- One completion: its callback, unless it is a notification, and the end of its user.
  unfoldable pub complete : Cqe → Reactor → Option Reactor
  unfolding reactor_call reactor_free_user sign_extend
  complete cqe r = do
    let result = reactor_call (r.user cqe.user_data) 0 (sign_extend cqe.res) r
    s ← if cqe.notif then some r else result
    some (if cqe.more then s else reactor_free_user s cqe.user_data)

  unfoldable pub run_completions : ℕ → Reactor → Option Reactor
  unfolding reactor_ring_cqe complete
  run_completions zero r = none
  run_completions (suc fuel) r = do
    (ring, cqe) ← reactor_ring_cqe r.ring
    elim cqe [
      | none ↦ some (record r { ring = ring })
      | some entry ↦ do s ← complete entry (record r { ring = ring }); run_completions fuel s
    ]

  unfoldable pub reactor_loop_once : ℕ → Reactor → Option Reactor
  unfolding run_next run_completions reactor_ring_update pool_size
  reactor_loop_once fuel r = do
    s ← if length r.next == 0 then some r else run_next fuel 0 r
    let waited = (do
      ring ← reactor_ring_update enter s.ring
      run_completions fuel (record s { time = 0; ring = ring }))
    if pool_size s.users == 0 then some s else waited

  unfoldable pub reactor_loop : ℕ → Reactor → Option Reactor
  unfolding reactor_loop_once pool_size
  reactor_loop zero r = none
  reactor_loop (suc fuel) r =
      let rest = (do s ← reactor_loop_once fuel r; reactor_loop fuel s) in
      if pool_size r.users == 0 then some r else rest
