-- ===== src/Queue/Producer.antt =====
-- src/reactor/queue.c: the queue and its producers. The state is the producer and the reactor. A
-- pointer to the queue is the queue, which nothing changes once it is constructed.
use libreactor_refactor.Prelude.{
  ◌>>=◌, ℕ, ◌+◌, ◌^◌, ◌%◌, Option, none, some, length, ltb, ◌==◌, if◌then◌else◌,
}
use libreactor_refactor.Words.{add64, sub64, mul64}
use libreactor_refactor.Memory.{Memory}
use libreactor_refactor.Buffer.{
  Buffer, buffer_construct, buffer_destruct, buffer_deconstruct, buffer_size, buffer_clear,
  buffer_insert,
}
use libreactor_refactor.Reactor.{Enter}
use libreactor_refactor.Reactor.State.{Callback, Reactor, reactor_cancel}
use libreactor_refactor.Reactor.Files.{reactor_write}
use libreactor_refactor.Stream.{Result}

-- `input` and `output` are the ends of the pipe, as the bits of an `int`.
pub record Queue : Type 0 where
  pub input : ℕ
  pub output : ℕ
  pub element_size : ℕ

-- `pipe` is the two descriptors, or `none` where the call fails.
unfoldable pub queue_construct : Option (ℕ × ℕ) → ℕ → Option Queue
queue_construct pipe element_size = do
  (input, output) ← pipe
  some (record { input = input; output = output; element_size = element_size })

pub record Producer : Type 0 where
  pub queue : Option Queue
  pub output : Buffer
  pub output_offset : ℕ
  pub output_queued : Buffer
  pub write : ℕ

unfoldable pub queue_producer_construct : Producer
unfolding buffer_construct
queue_producer_construct = record {
  queue = none;
  output = buffer_construct;
  output_offset = 0;
  output_queued = buffer_construct;
  write = 0;
}

unfoldable pub queue_producer_open : Producer → Queue → Producer
queue_producer_open p queue = record p { queue = some queue }

-- The swap of the two buffers, where all of the first is written.
unfoldable pub swap_written : Producer → Producer
unfolding buffer_size buffer_clear
swap_written p =
    if p.output_offset == buffer_size p.output
    then record p {
      output = p.output_queued;
      output_offset = 0;
      output_queued = buffer_clear p.output;
    }
    else p

-- How many bytes are asked for: no more than 128 elements.
unfoldable pub batch : Queue → Producer → ℕ
unfolding buffer_size sub64 mul64
batch queue p =
    let size_max = mul64 queue.element_size 128 in
    let size = sub64 (buffer_size p.output) p.output_offset in
    if ltb size_max size then size_max else size

-- The number of `EINTR`
abbrev pub interrupted : ℕ
interrupted = 4

-- `address` is where a buffer has its block, `self` the address of the producer; `write_callback` and
-- `cancel_callback` are those of `queue_producer_write` and `queue_cancel`.
module _ (chunk : ℕ → ℕ) (enter : Enter) (address : Buffer → ℕ)
    (self write_callback cancel_callback : ℕ) where
  -- The request for the write.
  unfoldable pub write_batch : Queue → Producer → Reactor → Option (Producer × Reactor)
  unfolding batch reactor_write
  write_batch queue p r = do
    open_end ← if ltb queue.output (2 ^ 31) then some queue.output else none
    (q, id) ←
        reactor_write chunk enter (Callback.client write_callback) self open_end
          (address p.output + p.output_offset) (batch queue p) 0 r
    some (record p { write = id }, q)

  unfoldable pub queue_producer_update : Producer → Reactor → Option (Producer × Reactor)
  unfolding swap_written buffer_size write_batch
  queue_producer_update p r =
      let next = swap_written p in
      let written = (next.queue >>= λ queue. write_batch queue next r) in
      if p.write == 0
      then (if buffer_size next.output == 0 then some (next, r) else written)
      else some (p, r)

  -- The part of `queue_producer_write` for a write of `n` bytes.
  unfoldable pub wrote : Queue → Producer → Reactor → ℕ → Option (Producer × Reactor)
  unfolding queue_producer_update add64
  wrote queue p r n =
      let updated =
        queue_producer_update (record p { write = 0; output_offset = add64 p.output_offset n }) r in
      if n == 0
      then none
      else if queue.element_size == 0
      then none
      else if n % queue.element_size == 0
      then updated
      else none

  unfoldable pub queue_producer_write : Producer → Reactor → Result → Option (Producer × Reactor)
  unfolding queue_producer_update wrote
  queue_producer_write p r (Result.failed e) =
      if e == interrupted then queue_producer_update (record p { write = 0 }) r else none
  queue_producer_write p r (Result.count n) = p.queue >>= λ queue. wrote queue p r n

  -- `queue_producer_push` to a queue that is open.
  unfoldable pub push_to : Queue → Producer → Memory → Reactor → Option (Producer × Reactor)
  unfolding buffer_insert buffer_size queue_producer_update
  push_to queue p element r = do
    bytes ← if length element == queue.element_size then some element else none
    b ← buffer_insert p.output_queued (buffer_size p.output_queued) bytes
    queue_producer_update (record p { output_queued = b }) r

  -- `element` is the `element_size` bytes at the address.
  unfoldable pub queue_producer_push : Producer → Memory → Reactor → Option (Producer × Reactor)
  unfolding push_to
  queue_producer_push p element r = p.queue >>= λ queue. push_to queue p element r

  unfoldable pub queue_producer_close : Producer → Reactor → Option (Producer × Reactor)
  unfolding reactor_cancel buffer_deconstruct buffer_destruct
  queue_producer_close p r =
      let freed = λ (p : Producer). record p {
        output = buffer_destruct p.output;
        output_queued = buffer_destruct p.output_queued;
      } in
      let cancelled = (do
        q ←
            reactor_cancel chunk enter p.write (Callback.client cancel_callback) (address p.output)
              r
        some (
          freed (record p { queue = none; output = (buffer_deconstruct p.output).0; write = 0 }),
          q,
        )) in
      let closed =
        if p.write == 0 then some (freed (record p { queue = none }), r) else cancelled in
      elim p.queue [ none ↦ some (p, r) | some queue ↦ closed ]

  unfoldable pub queue_producer_destruct : Producer → Reactor → Option (Producer × Reactor)
  unfolding queue_producer_close
  queue_producer_destruct = queue_producer_close
