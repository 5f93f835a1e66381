-- ===== src/Server/Respond.antt =====
-- src/reactor/server.c: a response is added to what the session writes.
use libreactor_refactor.Prelude.{
  ℕ, true, false, Option, some, ◌++◌, ◌≡◌, refl, sym, ap, ◌∙◌, append_assoc,
}
use libreactor_refactor.Memory.{Memory}
use libreactor_refactor.Buffer.{Buffer, buffer_data}
use libreactor_refactor.Buffer.Insert.{Yields}
use libreactor_refactor.Reactor.{Enter}
use libreactor_refactor.Reactor.State.{Reactor}
use libreactor_refactor.Stream.{Stream}
use libreactor_refactor.Stream.Flow.{Flows}
use libreactor_refactor.Http.{http_write_response}
use libreactor_refactor.Http.Response.{response}
use libreactor_refactor.Server.Session.{Session, server_respond}

-- The stream with more to write.
abbrev pub with_next : Stream → Buffer → Stream
with_next t b = record t { output = record t.output { next = b } }

-- What was written grows by what the next buffer does.
pub with_next-Flows :
    (t : Stream) (r : Reactor) (sent written x : Memory) (run : Option Buffer)
    → Flows t r sent written
    → (y : Yields run (buffer_data t.output.next ++ x))
    → Flows (with_next t y.final) r sent (written ++ x)
with_next-Flows t r sent written x run f y = record {
  kind = f.kind;
  ready = f.ready;
  bytes_valid = f.bytes_valid;
  next_valid = y.valid;
  gone = f.gone;
  rest = f.rest;
  bytes = f.bytes;
  partial = f.partial;
  order =
      ap (λ (l : Memory). l ++ x) f.order
      ∙ join sent f.rest (buffer_data t.output.next) x
      ∙ ap (λ (l : Memory). sent ++ (f.rest ++ l)) (sym y.holds);
  state = f.state;
}
  where
    join : (a b c d : Memory) → (a ++ (b ++ c)) ++ d ≡ a ++ (b ++ (c ++ d))
    join a b c d = simp append_assoc

module _ (chunk : ℕ → ℕ) (enter : Enter) (address : Buffer → ℕ)
    (self send_callback recv_callback release_buffer : ℕ) where
  -- `server_respond` inside of the call of the user writes to the next buffer, and leaves the rest.
  pub respond-within :
      (date : Memory) (s : Session) (r : Reactor) (status type body : Memory)
      → (y : Yields
          (http_write_response s.stream.output.next status date type body)
          (buffer_data s.stream.output.next ++ response status date type body))
      → s.in_progress ≡ true
      → s.abort ≡ true
      → server_respond chunk enter address self send_callback recv_callback release_buffer date s r
          status type body
        ≡ some (record s { in_progress = false; stream = with_next s.stream y.final }, r)
  unfolding server_respond
  respond-within date s r status type body y busy within = rw (busy, y.ends, within) refl
