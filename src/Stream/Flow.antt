-- ===== src/Stream/Flow.antt =====
-- The output of a socket stream: what was written is what was sent, what is on its way, and what waits,
-- in this order.
use libreactor_refactor.Prelude.{
  ℕ, true, false, Option, some, [], ◌++◌, length, ◌==◌, ◌≡◌, ◌≢◌, ◌⊎◌, inl, inr, refl, sym, ap, ◌∙◌,
  arith, append-nil,
}
use native.Mathlib.Decide.{ℕ_discrete}
use libreactor_refactor.Memory.{Memory}
use libreactor_refactor.Buffer.{Buffer, buffer_data, buffer_size, buffer_empty, buffer_clear}
use libreactor_refactor.Buffer.Laws.{IsValid}
use libreactor_refactor.Reactor.{Enter}
use libreactor_refactor.Reactor.State.{Reactor}
use libreactor_refactor.Reactor.Ready.{IsReady, Surroundings}
use libreactor_refactor.Stream.Defs.{Stream, StreamType}
use libreactor_refactor.Stream.Output.{stream_flushed, stream_flush}
use libreactor_refactor.Stream.Ready.{Pending, stream_send-Sends}
use libreactor_refactor.Reactor.Ring.{newest}

-- `gone` was sent from the buffer in use, and `rest` is asked to be sent.
pub record Flows (s : Stream) (r : Reactor) (sent written : Memory) : Type 0 where
  pub kind : s.kind ≡ StreamType.socket
  pub ready : IsReady r
  pub bytes_valid : IsValid s.output.bytes
  pub next_valid : IsValid s.output.next
  pub gone : Memory
  pub rest : Memory
  pub bytes : buffer_data s.output.bytes ≡ gone ++ rest
  pub partial : s.output.partial_write ≡ length gone
  pub order : written ≡ sent ++ (rest ++ buffer_data s.output.next)
  pub state : (s.output.id ≢ 0) ⊎ ((s.output.id ≡ 0) × (gone ≡ []) × (rest ≡ []))

pub cleared : (b : Buffer) → IsValid b → IsValid (buffer_clear b)
unfolding buffer_clear
cleared b v = record { full = v.full; fits = omega arith; small = v.small }

module _ (chunk : ℕ → ℕ) (enter : Enter) (address : Buffer → ℕ) (self send_callback : ℕ)
    (around : Surroundings chunk enter) where
  -- What is on its way behind a run that may ask for more: nothing, or what was queued last.
  abbrev pub Asks : Stream → Reactor → Type 0
  Asks s r =
      (s.output.id ≡ 0) ⊎ Pending chunk enter address self send_callback around s r (newest r.ring)

  -- A run of the stream after which the output flows. It asks for nothing where something is on its way.
  pub record Leads (s : Stream) (r : Reactor) (run : Option (Stream × Reactor))
      (sent written : Memory) : Type 0 where
    pub stream : Stream
    pub reactor : Reactor
    pub ends : run ≡ some (stream, reactor)
    pub flows : Flows stream reactor sent written
    pub asks :
        ((s.output.id ≡ 0) × Asks stream reactor)
        ⊎ ((s.output.id ≢ 0) × (stream ≡ s) × (reactor ≡ r))

  -- `stream_flush` where nothing is on its way.
  pub flush_idle :
      (s : Stream) (r : Reactor) (sent written : Memory)
      → s.kind ≡ StreamType.socket
      → IsReady r
      → IsValid s.output.bytes
      → IsValid s.output.next
      → s.output.bytes.size ≡ 0
      → s.output.partial_write ≡ 0
      → s.output.id ≡ 0
      → written ≡ sent ++ buffer_data s.output.next
      → Leads s r (stream_flush chunk enter address self send_callback s r) sent written
  unfolding stream_flush stream_flushed buffer_empty buffer_size buffer_data
  flush_idle s r sent written kind ready bv nv empty whole idle order =
      let o = s.output in
      let swapped = record s { output = record o { bytes = o.next; next = o.bytes } } in
      let none_left : buffer_data o.bytes ≡ [] = rw empty refl in
      let first : (o.bytes.size == 0) ≡ true = ground (arith, empty) in
      let idle_test : (o.id == 0) ≡ true = ground (arith, idle) in
      elim (ℕ_discrete o.next.size 0) [
        | yes e ↦
            let second : (o.next.size == 0) ≡ true = ground (arith, e) in
            record {
              stream = s;
              reactor = r;
              ends = rw (first, second) refl;
              flows = record {
                kind = kind;
                ready = ready;
                bytes_valid = bv;
                next_valid = nv;
                gone = [];
                rest = [];
                bytes = none_left;
                partial = whole;
                order = order;
                state = inr (idle, refl, refl);
              };
              asks = inl (idle, inl idle);
            }
        | no n ↦
            let second : (o.next.size == 0) ≡ false = ground (arith, n) in
            let m =
              stream_send-Sends chunk enter address self send_callback around swapped r kind nv
                (omega (arith, whole)) ready in
            record {
              stream = record swapped { output = record swapped.output { id = m.id } };
              reactor = m.reactor;
              ends = rw (first, second, idle_test, m.ends) refl;
              flows = record {
                kind = kind;
                ready = m.ready;
                bytes_valid = nv;
                next_valid = bv;
                gone = [];
                rest = buffer_data o.next;
                bytes = refl;
                partial = whole;
                order =
                    order
                    ∙ ap (λ (l : Memory). sent ++ l)
                        (sym (
                          ap (λ (l : Memory). buffer_data o.next ++ l) none_left
                          ∙ append-nil (buffer_data o.next)));
                state = inl m.nonzero;
              };
              asks = inl (idle, inr m.pending);
            }
      ]
