-- ===== src/Queue/Run.antt =====
-- src/reactor/queue.c: a producer with its reactor, and what may happen to it.
use libreactor_refactor.Prelude.{
  ◌>>=◌, ℕ, ◌+◌, ◌%◌, ◌^◌, ◌≤◌, ◌<◌, Option, some, ◌++◌, length, take, ◌==◌, if◌then◌else◌, ◌⊎◌,
  ◌≡◌, ◌≢◌,
}
use libreactor_refactor.Memory.{Memory}
use libreactor_refactor.Buffer.{Buffer}
use libreactor_refactor.Reactor.{Enter, Sqe}
use libreactor_refactor.Reactor.Ring.{newest}
use libreactor_refactor.Stream.Named.{named_by}
use libreactor_refactor.Reactor.State.{Reactor}
use libreactor_refactor.Reactor.Ready.{Surroundings}
use libreactor_refactor.Stream.{Result}
use libreactor_refactor.Queue.Producer.{
  Queue, Producer, interrupted, queue_producer_write, queue_producer_push,
}
use libreactor_refactor.Queue.Flow.{Flows}
use libreactor_refactor.Queue.Leads.{Pending}

-- `taken n`: the kernel reports that it took `n` bytes; `broken`: that it was interrupted.
pub data Action : Type 0 where
  push : Memory → Action
  taken : ℕ → Action
  broken : Action

-- A producer and its reactor, with the entry of the request that was queued last for it, what the kernel
-- took and what was pushed until now.
pub record World : Type 0 where
  pub producer : Producer
  pub reactor : Reactor
  pub request : Option Sqe
  pub sent : Memory
  pub pushed : Memory

-- The bytes that the entry names.
abbrev pub asked : (Buffer → ℕ) → World → Memory
asked address w = named_by address w.producer.output w.request

module _ (chunk : ℕ → ℕ) (enter : Enter) (address : Buffer → ℕ)
    (self write_callback cancel_callback : ℕ) where
  -- A completed request is what the last entry of the ring asked for, until the next.
  unfoldable pub turn : Action → World → Option World
  unfolding queue_producer_push queue_producer_write newest
  turn (Action.push x) w = do
    (p, r) ←
        queue_producer_push chunk enter address self write_callback cancel_callback w.producer x
          w.reactor
    let asks = if w.producer.write == 0 then newest r.ring else w.request
    some (record w { producer = p; reactor = r; request = asks; pushed = w.pushed ++ x })
  turn (Action.taken n) w = do
    (p, r) ←
        queue_producer_write chunk enter address self write_callback cancel_callback w.producer
          w.reactor (Result.count n)
    some (record w {
      producer = p;
      reactor = r;
      request = newest r.ring;
      sent = w.sent ++ take n (asked address w);
    })
  turn Action.broken w = do
    (p, r) ←
        queue_producer_write chunk enter address self write_callback cancel_callback w.producer
          w.reactor (Result.failed interrupted)
    some (record w { producer = p; reactor = r; request = newest r.ring })

  module _ (queue : Queue) where
    -- An element has the queue's size, and a buffer stays below 2 ^ 63 bytes. The kernel completes a
    -- request that it has, by whole elements, one at least and no more than was asked for.
    abbrev pub IsAllowed : Action → World → Type 0
    IsAllowed (Action.push x) w =
        (length x ≡ queue.element_size) × (w.producer.output_queued.size + length x ≤ 2 ^ 63)
    IsAllowed (Action.taken n) w =
        (w.producer.write ≢ 0)
        × (0 < n)
        × (n % queue.element_size ≡ 0)
        × (n ≤ length (asked address w))
    IsAllowed Action.broken w = w.producer.write ≢ 0

    module _ (around : Surroundings chunk enter) (small : queue.output < 2 ^ 31)
        (sized : queue.element_size ≢ 0) where
      -- What was pushed flows, and the entry of a request that is on its way asks for the bytes that
      -- are next.
      pub record IsFlowing (w : World) : Type 0 where
        pub flows : Flows queue w.producer w.reactor w.sent w.pushed
        pub pending :
            (w.producer.write ≡ 0)
            ⊎ Pending chunk enter address self write_callback cancel_callback around queue
                w.producer w.reactor w.request
