-- ===== src/Event/Defs.antt =====
-- src/reactor/event.c: one function for each of the source. The state is the event and the reactor.
use libreactor_refactor.Prelude.{
  ◌>>=◌, ℕ, Bool, true, false, Option, none, some, ◌==◌, if◌then◌else◌,
}
use libreactor_refactor.Reactor.{Enter}
use libreactor_refactor.Reactor.State.{Callback, User, Reactor, reactor_user_define, reactor_cancel}
use libreactor_refactor.Reactor.Files.{reactor_read, reactor_write, reactor_close}

-- `fd` is the bits of an `int`; `abort` is whether the pointer is set.
pub record Event : Type 0 where
  pub user : User
  pub read : ℕ
  pub counter : ℕ
  pub fd : ℕ
  pub abort : Bool

abbrev pub minus_one : ℕ
minus_one = 4294967295

unfoldable pub event_construct : Callback → ℕ → Event
unfolding reactor_user_define
event_construct callback state = record {
  user = reactor_user_define callback state;
  read = 0;
  counter = 0;
  fd = minus_one;
  abort = false;
}

-- The call of the user, with the counter: what it makes of the event and the reactor, and whether the
-- flag at `abort` is set in the end.
abbrev pub Call : Type 0
Call = ℕ → Event → Reactor → Option (Event × Reactor × Bool)

-- `chunk` and `enter` are those of the reactor; `self`, `counter` and `signal` are the addresses of the
-- event, of its counter and of the constant, and `handler` that of `event_read`.
module _ (chunk : ℕ → ℕ) (enter : Enter) (self counter signal handler : ℕ) where
  -- The request for the counter.
  unfoldable pub wait : Event → Reactor → Option (Event × Reactor)
  unfolding reactor_read
  wait e r = do
    (q, id) ← reactor_read chunk enter (Callback.client handler) self e.fd counter 8 0 r
    some (record e { read = id }, q)

  -- `result` is that of the kernel, which left the counter in the event.
  unfoldable pub event_read : Call → ℕ → Event → Reactor → Option (Event × Reactor)
  unfolding wait
  event_read call result e r =
      let signalled = (do
        (f, q, aborted) ← call e.counter (record e { read = 0; abort = true }) r
        let again = wait (record f { abort = false }) q
        if aborted then some (f, q) else again) in
      if result == 8 then signalled else none

  -- `fd` is the result of `eventfd`.
  unfoldable pub event_open : ℕ → Event → Reactor → Option (Event × Reactor)
  unfolding wait
  event_open fd e r = wait (record e { fd = fd }) r

  unfoldable pub event_signal : Event → Reactor → Option Reactor
  unfolding reactor_write
  event_signal e r = do
    (q, id) ← reactor_write chunk enter Callback.null 0 e.fd signal 8 0 r
    some q

  -- Whether the flag at `abort` is set is returned too.
  unfoldable pub event_close : Event → Reactor → Option (Event × Reactor × Bool)
  unfolding reactor_cancel reactor_close
  event_close e r =
      let cancelled = reactor_cancel chunk enter e.read Callback.null 0 r in
      let closed = (do
        q ← if e.read == 0 then some r else cancelled
        (s, id) ← reactor_close chunk enter Callback.null 0 e.fd q
        some (record e { fd = minus_one }, s, e.abort)) in
      if e.fd == minus_one then some (e, r, false) else closed

  unfoldable pub event_destruct : Event → Reactor → Option (Event × Reactor × Bool)
  unfolding event_close
  event_destruct = event_close
