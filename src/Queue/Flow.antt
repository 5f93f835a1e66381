-- ===== src/Queue/Flow.antt =====
-- src/reactor/queue.c: what a producer was given is what was written, what is on its way, and what
-- waits, in this order.
use libreactor_refactor.Prelude.{
  true, false, some, [], ◌∷◌, ◌++◌, length, ◌==◌, ◌≡◌, ◌≢◌, ◌⊎◌, inl, inr, refl, sym, ap, ◌∙◌,
  arith, append-nil, length-append,
}
use native.Mathlib.Decide.{ℕ_discrete}
use libreactor_refactor.Memory.{Memory}
use libreactor_refactor.Buffer.{Buffer, buffer_data, buffer_size, buffer_clear}
use libreactor_refactor.Buffer.Laws.{IsValid, size-data}
use libreactor_refactor.Reactor.State.{Reactor}
use libreactor_refactor.Reactor.Ready.{IsReady}
use libreactor_refactor.Stream.Flow.{cleared}
use libreactor_refactor.Queue.Producer.{Queue, Producer, swap_written}

-- `gone` was written from the buffer in use, and `rest` is still to be written.
pub record Holds (queue : Queue) (p : Producer) (r : Reactor) (sent pushed : Memory) : Type 0 where
  pub opened : p.queue ≡ some queue
  pub ready : IsReady r
  pub output_valid : IsValid p.output
  pub queued_valid : IsValid p.output_queued
  pub gone : Memory
  pub rest : Memory
  pub bytes : buffer_data p.output ≡ gone ++ rest
  pub offset : p.output_offset ≡ length gone
  pub order : pushed ≡ sent ++ (rest ++ buffer_data p.output_queued)

-- A request is on its way, or all was written.
pub record Flows (queue : Queue) (p : Producer) (r : Reactor) (sent pushed : Memory) : Type 0 where
  pub holds : Holds queue p r sent pushed
  pub state : (p.write ≢ 0) ⊎ ((p.write ≡ 0) × (sent ≡ pushed))

pub no_cells : (l : Memory) → length l ≡ 0 → l ≡ []
no_cells [] e = refl
no_cells (c ∷ l) e = absurd (omega arith)

-- The swap keeps what is held, and leaves bytes to be written unless there are none.
pub swap_written-Holds :
    (queue : Queue) (p : Producer) (r : Reactor) (sent pushed : Memory)
    → Holds queue p r sent pushed
    → Holds queue (swap_written p) r sent pushed
      × ((swap_written p).write ≡ p.write)
      × ((buffer_size (swap_written p).output ≢ 0) ⊎ (sent ≡ pushed))
unfolding swap_written buffer_size buffer_clear
swap_written-Holds queue p r sent pushed h = elim (ℕ_discrete p.output_offset p.output.size) [
  | yes e ↦
      let test : (p.output_offset == p.output.size) ≡ true = ground (arith, e) in
      let size = size-data p.output h.output_valid in
      let no_rest : h.rest ≡ [] =
        no_cells h.rest
          (omega (arith, e, size, h.offset, ap length h.bytes, length-append h.gone h.rest)) in
      let order : pushed ≡ sent ++ buffer_data p.output_queued =
        h.order ∙ ap (λ (l : Memory). sent ++ (l ++ buffer_data p.output_queued)) no_rest in
      rw test (
        record {
          opened = h.opened;
          ready = h.ready;
          output_valid = h.queued_valid;
          queued_valid = cleared p.output h.output_valid;
          gone = [];
          rest = buffer_data p.output_queued;
          bytes = refl;
          offset = refl;
          order =
              order
              ∙ ap (λ (l : Memory). sent ++ l)
                  (sym (
                    ap (λ (l : Memory). buffer_data p.output_queued ++ l) (empty p.output)
                    ∙ append-nil (buffer_data p.output_queued)));
        },
        refl,
        elim (ℕ_discrete p.output_queued.size 0) [
          | no n ↦ inl n
          | yes z ↦ inr (
              sym (
                order
                ∙ ap (λ (l : Memory). sent ++ l)
                    (no_cells (buffer_data p.output_queued)
                      (omega (arith, size-data p.output_queued h.queued_valid, z)))
                ∙ append-nil sent))
        ],
      )
  | no n ↦
      let test : (p.output_offset == p.output.size) ≡ false = ground (arith, n) in
      let size = size-data p.output h.output_valid in
      rw test (
        h,
        refl,
        inl (λ z.
            n (omega (arith, z, size, h.offset, ap length h.bytes, length-append h.gone h.rest))),
      )
]
  where
    empty : (b : Buffer) → buffer_data (buffer_clear b) ≡ []
    empty b = unfold buffer_data in refl
