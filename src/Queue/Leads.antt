-- ===== src/Queue/Leads.antt =====
-- src/reactor/queue.c: what the kernel is asked to write, and the runs of a producer after which its
-- output flows.
use libreactor_refactor.Prelude.{
  ◌>>=◌, ◌-◌, ◌%◌, ◌≤◌, min, if◌then◌else◌, ℕ, ◌+◌, ◌^◌, ◌<◌, true, false, Option, some, length,
  ltb, ◌==◌, ◌≡◌, ◌≢◌, ◌⊎◌, inl, inr, refl, ap, ◌∙◌, arith, length-append,
}
use native.Mathlib.Decide.{ℕ_discrete}
use libreactor_refactor.Words.{word32, mul64, sub64, sub64-eq}
use libreactor_refactor.Memory.{Memory}
use libreactor_refactor.Buffer.{Buffer, buffer_data, buffer_size}
use libreactor_refactor.Buffer.Laws.{IsValid, size-data}
use libreactor_refactor.Reactor.{Enter, Sqe, Opcode}
use libreactor_refactor.Reactor.Ring.{newest}
use libreactor_refactor.Reactor.State.{Callback, Reactor, reactor_user_define}
use libreactor_refactor.Reactor.Ready.{IsReady, Answers, Surroundings, request-Answers}
use libreactor_refactor.Reactor.Files.{reactor_write}
use libreactor_refactor.Queue.Producer.{
  Queue, Producer, swap_written, batch, write_batch, queue_producer_update,
}
use libreactor_refactor.Queue.Flow.{Holds, Flows, swap_written-Holds}

module _ (chunk : ℕ → ℕ) (enter : Enter) (address : Buffer → ℕ)
    (self write_callback cancel_callback : ℕ) (around : Surroundings chunk enter) where
  -- What the kernel is asked to do: to write to the pipe the bytes of the buffer in use that were not
  -- written, from where they stand, but no more than those of 128 elements, by a user with the callback
  -- of the producer.
  pub record Pending (queue : Queue) (p : Producer) (r : Reactor) (request : Option Sqe)
      : Type 0 where
    pub entry :
        request
        ≡ some (record {
          opcode = Opcode.write;
          fd = queue.output;
          off = 0;
          addr = address p.output + p.output_offset;
          len =
              min (mul64 queue.element_size 128) (length (buffer_data p.output) - p.output_offset)
              % word32;
          op_flags = 0;
          user_data = p.write;
        })
    pub known : r.user p.write ≡ record { callback = Callback.client write_callback; state = self }

  -- A run of the producer after which its output flows; `asks` gives the entry of the request that is
  -- on its way, if there is one.
  pub record Leads (queue : Queue) (run : Option (Producer × Reactor)) (sent pushed : Memory)
      (asks : Reactor → Option Sqe) : Type 0 where
    pub producer : Producer
    pub reactor : Reactor
    pub ends : run ≡ some (producer, reactor)
    pub flows : Flows queue producer reactor sent pushed
    pub pending : (producer.write ≡ 0) ⊎ Pending queue producer reactor (asks reactor)

  abbrev pub newest_of : Reactor → Option Sqe
  newest_of r = newest r.ring

  asked :
      (queue : Queue) (p : Producer) (r : Reactor)
      → IsReady r
      → Answers
          (record { callback = Callback.client write_callback; state = self })
          (λ user. record {
            opcode = Opcode.write;
            fd = queue.output;
            off = 0;
            addr = address p.output + p.output_offset;
            len = batch queue p % word32;
            op_flags = 0;
            user_data = user;
          })
          (reactor_write chunk enter
            (Callback.client write_callback)
            self
            queue.output
            (address p.output + p.output_offset)
            (batch queue p)
            0
            r)
  unfolding reactor_write reactor_user_define
  asked queue p r ready =
      request-Answers chunk enter r (Callback.client write_callback) self _ around ready

  -- The size of a request, for a valid buffer.
  batch-min :
      (queue : Queue) (p : Producer)
      → IsValid p.output
      → p.output_offset ≤ p.output.size
      → batch queue p
        ≡ min (mul64 queue.element_size 128) (length (buffer_data p.output) - p.output_offset)
  unfolding batch buffer_size
  batch-min queue p valid inside =
      let left : sub64 p.output.size p.output_offset
          ≡ length (buffer_data p.output) - p.output_offset =
        sub64-eq p.output.size p.output_offset inside (omega (arith, valid.fits, valid.small))
        ∙ ap (λ (n : ℕ). n - p.output_offset) (size-data p.output valid) in
      rw left (smaller (mul64 queue.element_size 128) _)
    where
      smaller : (a b : ℕ) → (if ltb a b then a else b) ≡ min a b
      smaller a b = ground arith

  write_batch-Leads :
      (queue : Queue) (p : Producer) (r : Reactor) (sent pushed : Memory)
      → queue.output < 2 ^ 31
      → Holds queue p r sent pushed
      → Leads queue
          (write_batch chunk enter address self write_callback cancel_callback queue p r)
          sent
          pushed
          newest_of
  unfolding write_batch
  write_batch-Leads queue p r sent pushed small h =
      let a = asked queue p r h.ready in
      let test : ltb queue.output (2 ^ 31) ≡ true = ground (arith, small) in
      record {
        producer = record p { write = a.id };
        reactor = a.final;
        ends = rw (test, a.ends) refl;
        flows = record {
          holds = record {
            opened = h.opened;
            ready = a.ready;
            output_valid = h.output_valid;
            queued_valid = h.queued_valid;
            gone = h.gone;
            rest = h.rest;
            bytes = h.bytes;
            offset = h.offset;
            order = h.order;
          };
          state = inl a.nonzero;
        };
        pending = inr (record {
          entry =
              a.queued
              ∙ ap
                  (λ (n : ℕ). some (record {
                    opcode = Opcode.write;
                    fd = queue.output;
                    off = 0;
                    addr = address p.output + p.output_offset;
                    len = n % word32;
                    op_flags = 0;
                    user_data = a.id;
                  }))
                  (batch-min queue p h.output_valid (
                    omega (
                      arith,
                      size-data p.output h.output_valid,
                      ap length h.bytes,
                      length-append h.gone h.rest,
                      h.offset,
                    )));
          known = a.known;
        });
      }

  -- `queue_producer_update` where nothing is on its way.
  pub update-Leads :
      (queue : Queue) (p : Producer) (r : Reactor) (sent pushed : Memory)
      → queue.output < 2 ^ 31
      → p.write ≡ 0
      → Holds queue p r sent pushed
      → Leads queue
          (queue_producer_update chunk enter address self write_callback cancel_callback p r)
          sent
          pushed
          newest_of
  unfolding queue_producer_update
  update-Leads queue p r sent pushed small idle h =
      let (held, same, left) = swap_written-Holds queue p r sent pushed h in
      let test : (p.write == 0) ≡ true = ground (arith, idle) in
      let next = swap_written p in
      elim (ℕ_discrete (buffer_size next.output) 0) [
        | yes e ↦
            let none_left : (buffer_size next.output == 0) ≡ true = ground (arith, e) in
            record {
              producer = next;
              reactor = r;
              ends = rw (test, none_left) refl;
              flows = record { holds = held; state = inr (same ∙ idle, done e left) };
              pending = inl (same ∙ idle);
            }
        | no n ↦
            let some_left : (buffer_size next.output == 0) ≡ false = ground (arith, n) in
            let l = write_batch-Leads queue next r sent pushed small held in
            record {
              producer = l.producer;
              reactor = l.reactor;
              ends =
                  rw (test, some_left)
                    (ap
                        (λ (o : Option Queue). o >>= λ queue.
                          write_batch chunk enter address self write_callback cancel_callback queue
                            next r)
                        held.opened
                      ∙ l.ends);
              flows = l.flows;
              pending = l.pending;
            }
      ]
    where
      done : {P : Type 0} {n : ℕ} → n ≡ 0 → (n ≢ 0) ⊎ P → P
      done e (inl n) = absurd (n e)
      done e (inr p) = p
