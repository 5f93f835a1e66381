-- ===== src/Reactor/Tests.antt =====
-- The requests at a concrete reactor, with a kernel that takes all that it is offered.
use libreactor_refactor.Prelude.{
  ◌>>=◌, ◌+◌, ◌*◌, Option, List, ◌==◌, if◌then◌else◌, Bool-cases, inl, inr, sym, ap, ◌∙◌, ◌≢◌,
  append-nil, ℕ, ◌≡◌, ◌++◌, refl, some, [], ◌∷◌, replicate, arith, length-replicate, false, true,
}
use mathlib.Core.Option.{some_inj}
use libreactor_refactor.Pool.Tests.{chunk, empty, empty-IsValid, first_apart}
use libreactor_refactor.Reactor.Defs.{Opcode, Sqe, Ring, Enter, submit}
use libreactor_refactor.Reactor.Ring.{Entries, Holds, Takes, flushed, submit-Holds}
use libreactor_refactor.Reactor.State.{
  Callback, Event, Reactor, request, reactor_async_cancel, reactor_cancel,
}
use libreactor_refactor.Reactor.Files.{
  reactor_nop, reactor_readv, reactor_writev, reactor_fsync, reactor_sync_file_range,
  reactor_timeout, reactor_read, reactor_write, reactor_fallocate, reactor_close,
}
use libreactor_refactor.Reactor.Sockets.{
  reactor_poll_add, reactor_poll_add_multi, reactor_poll_update, reactor_poll_remove,
  reactor_epoll_ctl, reactor_sendmsg, reactor_recvmsg, reactor_send, reactor_recv, reactor_accept,
  reactor_connect, reactor_send_zerocopy,
}
use libreactor_refactor.Reactor.Queued.{Waits, Queues, request-Queues}
use libreactor_refactor.Reactor.Serve.{OnlyPlans, serve, run_next-serve}
use libreactor_refactor.Reactor.Cancel.{reactor_cancel-silent}
use libreactor_refactor.Reactor.Loop.{reactor_call, run_next}
use libreactor_refactor.Reactor.Operation.{Operation}
use libreactor_refactor.Reactor.Every.{Asks, file_requests-Ask, socket_requests-Ask}

abbrev blank : Sqe
blank = record {
  opcode = Opcode.nop;
  fd = 0;
  off = 0;
  addr = 0;
  len = 0;
  op_flags = 0;
  user_data = 0;
}

-- The head and the tail of the submissions stand just before they wrap.
abbrev ring : Ring
ring = record {
  size = 4096;
  sqe = replicate 4096 blank;
  sq_mask = 4095;
  sq_head = 0xFFFF_FFFF;
  sq_tail = 0xFFFF_FFFF;
  sq_array = replicate 4096 0;
  cqe = [];
  cq_mask = 8191;
  cq_head = 0;
  cq_tail = 0;
}

pub ring-Holds : Holds ring []
ring-Holds = record {
  size = refl;
  mask = refl;
  sqes = length-replicate 4096 blank;
  array = length-replicate {A = ℕ} 4096 0;
  head = omega arith;
  tail = refl;
  count = omega arith;
  entries = Entries.done;
}

abbrev pub enter : Enter
enter n r = (record r { sq_head = r.sq_tail }, n)

pub enter-Takes : Takes enter
enter-Takes = record {
  number = λ n r. refl;
  head = λ r. refl;
  tail = λ n r. refl;
  size = λ n r. refl;
  mask = λ n r. refl;
  sqes = λ n r. refl;
  array = λ n r. refl;
}

abbrev pub reactor : Reactor
reactor = record {
  references = 1;
  ring = ring;
  users = empty;
  user = λ a. record { callback = Callback.null; state = 0 };
  next = [];
  time = 0;
}

pub reactor-Waits : Waits chunk reactor [] []
reactor-Waits = record { users = empty-IsValid; ring = ring-Holds }

submit-Holds_example :
    (s : Ring) × (submit enter ring blank ≡ some s) × Holds s (flushed [] ++ (blank ∷ []))
submit-Holds_example = submit-Holds enter ring [] blank enter-Takes ring-Holds

request-Queues_example :
    Queues chunk reactor [] [] Opcode.nop (Callback.client 1) 7 (
      request chunk enter (Callback.client 1) 7 (λ user. record blank { user_data = user }) reactor)
request-Queues_example =
    request-Queues chunk enter reactor [] [] enter-Takes reactor-Waits (omega arith) first_apart
      Opcode.nop (Callback.client 1) 7 (λ user. record blank { user_data = user }) (λ user. refl)
      (λ user. refl)

file_requests-Ask_example :
    let Does = Asks chunk reactor [] [] (Callback.client 3) 9 in
    Does (reactor_nop chunk enter (Callback.client 3) 9 reactor) Operation.nop
    × Does
        (reactor_readv chunk enter (Callback.client 3) 9 5 64 100 1 reactor)
        (Operation.readv 5 64 100 1)
    × Does
        (reactor_writev chunk enter (Callback.client 3) 9 5 64 100 1 reactor)
        (Operation.writev 5 64 100 1)
    × Does (reactor_fsync chunk enter (Callback.client 3) 9 5 reactor) (Operation.fsync 5)
    × Does
        (reactor_sync_file_range chunk enter (Callback.client 3) 9 5 1 100 6 reactor)
        (Operation.sync_file_range 5 1 100 6)
    × Does
        (reactor_timeout chunk enter (Callback.client 3) 9 64 100 6 reactor)
        (Operation.timeout 64 100 6)
    × Does
        (reactor_read chunk enter (Callback.client 3) 9 5 64 100 1 reactor)
        (Operation.read 5 64 100 1)
    × Does
        (reactor_write chunk enter (Callback.client 3) 9 5 64 100 1 reactor)
        (Operation.write 5 64 100 1)
    × Does
        (reactor_fallocate chunk enter (Callback.client 3) 9 5 2 1 100 reactor)
        (Operation.fallocate 5 2 1 100)
    × Does (reactor_close chunk enter (Callback.client 3) 9 5 reactor) (Operation.close 5)
file_requests-Ask_example =
    file_requests-Ask chunk enter reactor [] [] enter-Takes reactor-Waits (omega arith) first_apart
      (Callback.client 3) 9 5 64 100 1 2 6 (omega arith)

socket_requests-Ask_example :
    let Does = Asks chunk reactor [] [] (Callback.client 3) 9 in
    Does (reactor_poll_add chunk enter (Callback.client 3) 9 5 7 reactor) (Operation.poll 5 7 false)
    × Does
        (reactor_poll_add_multi chunk enter (Callback.client 3) 9 5 7 reactor)
        (Operation.poll 5 7 true)
    × Does
        (reactor_poll_update chunk enter (Callback.client 3) 9 8 7 reactor)
        (Operation.poll_change 8 7)
    × Does (reactor_poll_remove chunk enter (Callback.client 3) 9 8 reactor) (Operation.poll_end 8)
    × Does
        (reactor_epoll_ctl chunk enter (Callback.client 3) 9 8 6 5 64 reactor)
        (Operation.epoll_ctl 8 6 5 64)
    × Does
        (reactor_sendmsg chunk enter (Callback.client 3) 9 5 64 6 reactor)
        (Operation.sendmsg 5 64 6)
    × Does
        (reactor_recvmsg chunk enter (Callback.client 3) 9 5 64 6 reactor)
        (Operation.recvmsg 5 64 6)
    × Does
        (reactor_send chunk enter (Callback.client 3) 9 5 64 100 6 reactor)
        (Operation.send 5 64 100 6)
    × Does
        (reactor_recv chunk enter (Callback.client 3) 9 5 64 100 6 reactor)
        (Operation.recv 5 64 100 6)
    × Does
        (reactor_accept chunk enter (Callback.client 3) 9 5 64 100 6 reactor)
        (Operation.accept 5 64 100 6)
    × Does
        (reactor_connect chunk enter (Callback.client 3) 9 5 64 100 reactor)
        (Operation.connect 5 64 100)
    × Does
        (reactor_send_zerocopy chunk enter (Callback.client 3) 9 5 64 100 6 reactor)
        (Operation.send_zc 5 64 100 6)
    × Does (reactor_async_cancel chunk enter (Callback.client 3) 9 8 reactor) (Operation.cancel 8)
socket_requests-Ask_example =
    socket_requests-Ask chunk enter reactor [] [] enter-Takes reactor-Waits (omega arith)
      first_apart (Callback.client 3) 9 5 64 100 8 7 6 (omega arith) (omega arith)

-- The callback 1 plans the call whose user is at its state, and all note the state in `time`.
abbrev planner : ℕ → Event → Reactor → Option Reactor
planner n e r =
    let noted = record r { time = r.time * 1000 + e.state } in
    if n == 1 then some (record noted { next = r.next ++ (e.state ∷ []) }) else some noted

planner-OnlyPlans : OnlyPlans planner
planner-OnlyPlans n e r s run = elim (Bool-cases (n == 1)) [
  | inl first ↦
      let t : some (record r { time = r.time * 1000 + e.state; next = r.next ++ (e.state ∷ []) })
          ≡ some s =
        rw first at run in
      (e.state ∷ [], sym (ap (λ (q : Reactor). q.next) (some_inj.0 t)))
  | inr other ↦
      let t : some (record r { time = r.time * 1000 + e.state }) ≡ some s = rw other at run in
      ([], sym (ap (λ (q : Reactor). q.next) (some_inj.0 t)) ∙ sym (append-nil r.next))
]

-- Users at 32 and 64, and calls of them; the first plans a call of the user at 96.
abbrev planned : Reactor
planned = record reactor {
  user = λ a.
      if a == 32
      then record { callback = Callback.client 1; state = 96 }
      else record { callback = Callback.client 2; state = a };
  next = 32 ∷ 64 ∷ [];
}

run_next-serve_example :
    run_next planner enter 9 0 planned ≡ serve planner enter 9 planned.next planned
run_next-serve_example = run_next-serve planner enter planner-OnlyPlans 9 planned

abbrev served : Option (ℕ × List ℕ)
served = do r ← run_next planner enter 9 0 planned; some (r.time, r.next)

in_order : served ≡ some (96_064_096, [])
unfolding run_next
in_order = refl

reactor_cancel-silent_example :
    (s : Reactor) × (reactor_cancel chunk enter 65 Callback.null 0 planned ≡ some s)
    × (s.next ≡ planned.next)
    × (s.ring ≡ planned.ring)
    × (reactor_call planner enter (s.user 64) 0 0 s ≡ some s)
    × ((b : ℕ) → b ≢ 64 → s.user b ≡ planned.user b)
reactor_cancel-silent_example =
    reactor_cancel-silent chunk enter planner 64 0 planned (omega arith) (omega arith)
