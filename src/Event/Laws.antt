-- ===== src/Event/Laws.antt =====
-- src/reactor/event.c: an event goes on waiting.
use libreactor_refactor.Prelude.{ℕ, true, false, Option, some, ◌≡◌, ◌≢◌, refl}
use libreactor_refactor.Reactor.{Enter, Opcode}
use libreactor_refactor.Reactor.State.{Callback, Reactor, reactor_user_define}
use libreactor_refactor.Reactor.Files.{reactor_read}
use libreactor_refactor.Reactor.Ready.{IsReady, Answers, Surroundings, request-Answers}
use libreactor_refactor.Event.Defs.{Event, Call, wait, event_read, event_open}

module _ (chunk : ℕ → ℕ) (enter : Enter) (self counter signal handler : ℕ)
    (around : Surroundings chunk enter) where
  -- A run after which the event waits for its counter, on a reactor that is ready.
  pub record Waits (run : Option (Event × Reactor)) (e : Event) : Type 0 where
    pub reactor : Reactor
    pub id : ℕ
    pub ends : run ≡ some (record e { read = id }, reactor)
    pub ready : IsReady reactor
    pub nonzero : id ≢ 0

  asked :
      (e : Event) (r : Reactor)
      → IsReady r
      → Answers
          (reactor_user_define (Callback.client handler) self)
          (λ user. record {
            opcode = Opcode.read;
            fd = e.fd;
            off = 0;
            addr = counter;
            len = 8;
            op_flags = 0;
            user_data = user;
          })
          (reactor_read chunk enter (Callback.client handler) self e.fd counter 8 0 r)
  unfolding reactor_read
  asked e r ready = request-Answers chunk enter r (Callback.client handler) self _ around ready

  pub wait-Waits :
      (e : Event) (r : Reactor)
      → IsReady r
      → Waits (wait chunk enter self counter signal handler e r) e
  unfolding wait
  wait-Waits e r ready =
      let a = asked e r ready in
      record {
        reactor = a.final;
        id = a.id;
        ends = rw a.ends refl;
        ready = a.ready;
        nonzero = a.nonzero;
      }

  -- `event_open` on a reactor that answers leaves the event waiting on the descriptor.
  pub event_open-Waits :
      (fd : ℕ) (e : Event) (r : Reactor)
      → IsReady r
      → Waits (event_open chunk enter self counter signal handler fd e r) (record e { fd = fd })
  unfolding event_open
  event_open-Waits fd e r ready = wait-Waits (record e { fd = fd }) r ready

  -- After a signal whose call does not close the event, and leaves the reactor ready, the event waits
  -- again.
  pub event_read-Waits :
      (call : Call) (e f : Event) (r q : Reactor)
      → call e.counter (record e { read = 0; abort = true }) r ≡ some (f, q, false)
      → IsReady q
      → Waits
          (event_read chunk enter self counter signal handler call 8 e r)
          (record f { abort = false })
  unfolding event_read
  event_read-Waits call e f r q ran ready =
      let w = wait-Waits (record f { abort = false }) q ready in
      record {
        reactor = w.reactor;
        id = w.id;
        ends = rw (ran, w.ends) refl;
        ready = w.ready;
        nonzero = w.nonzero;
      }
