-- ===== src/Stream/Keeps.antt =====
-- src/reactor/stream.c: `stream_flush` does not touch the input.
use libreactor_refactor.Prelude.{
  ◌>>=◌, ℕ, Bool, true, false, Option, none, some, ◌==◌, if◌then◌else◌, ◌≡◌, sym, ap,
}
use mathlib.Core.Option.{some_inj}
use libreactor_refactor.Buffer.{Buffer}
use libreactor_refactor.Reactor.{Enter}
use libreactor_refactor.Reactor.State.{Reactor}
use libreactor_refactor.Stream.Defs.{Stream}
use libreactor_refactor.Stream.Output.{stream_flushed, stream_flush, send_request, stream_send}

module _ (chunk : ℕ → ℕ) (enter : Enter) (address : Buffer → ℕ) (self send_callback : ℕ) where
  -- The stream after a request.
  sent_input :
      (s t : Stream) (q : Reactor) (o : Option (Reactor × ℕ))
      → (◌>>=◌ {A = Reactor × ℕ} {B = Stream × Reactor} o
          (λ (p, id). some (record s { output = record s.output { id = id } }, p)))
        ≡ some (t, q)
      → t.input.bytes ≡ s.input.bytes
  sent_input s t q none e = absurd (cc)
  sent_input s t q (some (p, id)) e =
      ap (λ (x : Stream × Reactor). x.0.input.bytes) (sym (some_inj.0 e))

  stream_send-input :
      (s t : Stream) (r q : Reactor)
      → stream_send chunk enter address self send_callback s r ≡ some (t, q)
      → t.input.bytes ≡ s.input.bytes
  unfolding stream_send
  stream_send-input s t r q e =
      sent_input s t q (send_request chunk enter address self send_callback s r) e

  pub stream_flush-input :
      (s t : Stream) (r q : Reactor)
      → stream_flush chunk enter address self send_callback s r ≡ some (t, q)
      → t.input.bytes ≡ s.input.bytes
  unfolding stream_flush
  stream_flush-input s t r q e = by_tests (stream_flushed s) (s.output.id == 0) e
    where
      by_tests :
          (a b : Bool)
          → (if a
              then some (s, r)
              else if b
              then stream_send chunk enter address self send_callback
                  (record s {
                    output = record s.output { bytes = s.output.next; next = s.output.bytes };
                  })
                  r
              else some (s, r))
            ≡ some (t, q)
          → t.input.bytes ≡ s.input.bytes
      by_tests true b e = ap (λ (x : Stream × Reactor). x.0.input.bytes) (sym (some_inj.0 e))
      by_tests false true e =
          stream_send-input
            (record s { output = record s.output { bytes = s.output.next; next = s.output.bytes } })
            t r q e
      by_tests false false e = ap (λ (x : Stream × Reactor). x.0.input.bytes) (sym (some_inj.0 e))
