-- ===== src/Queue/Consumer.antt =====
-- src/reactor/queue.c: the consumers of a queue. The state is the consumer and the reactor.
use libreactor_refactor.Prelude.{
  ◌>>=◌, ℕ, zero, suc, ◌+◌, ◌%◌, Bool, true, false, Option, none, some, leb, ◌==◌, if◌then◌else◌,
}
use libreactor_refactor.Words.{mul64}
use libreactor_refactor.Buffer.{
  Buffer, buffer_construct, buffer_destruct, buffer_deconstruct, buffer_size, buffer_resize,
}
use libreactor_refactor.Reactor.{Enter}
use libreactor_refactor.Reactor.State.{Callback, User, Reactor, reactor_user_define, reactor_cancel}
use libreactor_refactor.Reactor.Files.{reactor_read}
use libreactor_refactor.Stream.{Result}
use libreactor_refactor.Queue.Producer.{Queue, interrupted}

-- `abort` is whether the pointer is set.
pub record Consumer : Type 0 where
  pub user : User
  pub queue : Option Queue
  pub input : Buffer
  pub read : ℕ
  pub abort : Bool

unfoldable pub queue_consumer_construct : Callback → ℕ → Consumer
unfolding reactor_user_define buffer_construct
queue_consumer_construct callback state = record {
  user = reactor_user_define callback state;
  queue = none;
  input = buffer_construct;
  read = 0;
  abort = false;
}

unfoldable pub queue_consumer_open : Consumer → Queue → ℕ → Consumer
unfolding buffer_resize mul64
queue_consumer_open c queue batch_size = record c {
  queue = some queue;
  input = buffer_resize c.input (mul64 queue.element_size batch_size);
}

-- The call of the user with the offset of an element in the input: what it makes of the consumer and
-- the reactor, and whether the flag at `abort` is set in the end.
abbrev pub Pop : Type 0
Pop = ℕ → Consumer → Reactor → Option (Consumer × Reactor × Bool)

-- The loop of `queue_consumer_read`, of so many rounds: whether it was left for the flag.
unfoldable pub pop_from : Pop → ℕ → ℕ → ℕ → Consumer → Reactor → Option (Consumer × Reactor × Bool)
pop_from pop zero offset result c r = none
pop_from pop (suc fuel) offset result c r =
    let round = (do
      (d, q, aborted) ← pop offset (record c { abort = true }) r
      let rest = d.queue >>= λ queue.
          pop_from pop fuel (offset + queue.element_size) result (record d { abort = false }) q
      if aborted then some (d, q, true) else rest) in
    if leb result offset then some (c, r, false) else round

-- `address` is where a buffer has its block, `self` the address of the consumer; `read_callback` and
-- `cancel_callback` are those of `queue_consumer_read` and `queue_cancel`.
module _ (chunk : ℕ → ℕ) (enter : Enter) (address : Buffer → ℕ)
    (self read_callback cancel_callback : ℕ) where
  unfoldable pub queue_consumer_update : Consumer → Reactor → Option (Consumer × Reactor)
  unfolding buffer_size reactor_read
  queue_consumer_update c r =
      let asked = (do
        queue ← c.queue
        (q, id) ←
            reactor_read chunk enter (Callback.client read_callback) self queue.input
              (address c.input) (buffer_size c.input) 0 r
        some (record c { read = id }, q)) in
      if c.read == 0 then asked else some (c, r)

  -- The part of `queue_consumer_read` for a read of `n` bytes.
  unfoldable pub pop_all : Pop → Queue → Consumer → Reactor → ℕ → Option (Consumer × Reactor)
  unfolding pop_from queue_consumer_update
  pop_all pop queue c r n =
      let popped = (do
        (d, q, aborted) ← pop_from pop (suc n) 0 n (record c { read = 0 }) r
        let updated = queue_consumer_update d q
        if aborted then some (d, q) else updated) in
      if n == 0
      then none
      else if queue.element_size == 0
      then none
      else if n % queue.element_size == 0
      then popped
      else none

  -- A round takes at least one byte.
  unfoldable pub queue_consumer_read :
      Pop → Consumer → Reactor → Result → Option (Consumer × Reactor)
  unfolding queue_consumer_update pop_all
  queue_consumer_read pop c r (Result.failed e) =
      if e == interrupted then queue_consumer_update (record c { read = 0 }) r else none
  queue_consumer_read pop c r (Result.count n) = c.queue >>= λ queue. pop_all pop queue c r n

  unfoldable pub queue_consumer_pop : Consumer → Reactor → Option (Consumer × Reactor)
  unfolding queue_consumer_update
  queue_consumer_pop = queue_consumer_update

  -- Whether the flag at `abort` is set is returned too.
  unfoldable pub queue_consumer_close : Consumer → Reactor → Option (Consumer × Reactor × Bool)
  unfolding reactor_cancel buffer_deconstruct
  queue_consumer_close c r =
      let cancelled = (do
        q ← reactor_cancel chunk enter c.read (Callback.client cancel_callback) (address c.input) r
        some (
          record c { queue = none; input = (buffer_deconstruct c.input).0; read = 0 },
          q,
          c.abort,
        )) in
      let closed =
        if c.read == 0 then some (record c { queue = none }, r, c.abort) else cancelled in
      elim c.queue [ none ↦ some (c, r, false) | some queue ↦ closed ]

  unfoldable pub queue_consumer_destruct : Consumer → Reactor → Option (Consumer × Reactor × Bool)
  unfolding queue_consumer_close buffer_destruct
  queue_consumer_destruct c r = do
    (d, q, aborted) ← queue_consumer_close c r
    some (record d { input = buffer_destruct d.input }, q, aborted)
