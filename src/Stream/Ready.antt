-- ===== src/Stream/Ready.antt =====
-- src/reactor/stream.c: its requests are answered by a reactor that is ready.
use libreactor_refactor.Prelude.{
  ℕ, ◌+◌, ◌-◌, ◌%◌, ◌≤◌, length, ◌≡◌, ◌≢◌, Option, some, refl, ap, ◌∙◌, arith,
}
use libreactor_refactor.Words.{word32, sub64, sub64-eq}
use libreactor_refactor.Buffer.{Buffer, buffer_data, buffer_size}
use libreactor_refactor.Buffer.Laws.{IsValid, size-data}
use libreactor_refactor.Reactor.{Enter, Sqe, Opcode}
use libreactor_refactor.Reactor.State.{Callback, User, Reactor, reactor_user_define}
use libreactor_refactor.Reactor.Ring.{newest}
use libreactor_refactor.Reactor.Ready.{IsReady, Answers, Surroundings, request-Answers}
use libreactor_refactor.Reactor.Files.{reactor_write}
use libreactor_refactor.Reactor.Sockets.{reactor_send}
use libreactor_refactor.Stream.Defs.{Stream, StreamType, on_socket_else}
use libreactor_refactor.Stream.Output.{send_request, stream_send}

either-Answers :
    (k : StreamType) (u : User) (e f : ℕ → Sqe) (x y : Option (Reactor × ℕ))
    → Answers u e x
    → Answers u f y
    → Answers u (on_socket_else k e f) (on_socket_else k x y)
either-Answers StreamType.socket u e f x y a b = a
either-Answers StreamType.undefined u e f x y a b = b
either-Answers StreamType.file u e f x y a b = b

module _ (chunk : ℕ → ℕ) (enter : Enter) (address : Buffer → ℕ) (self send_callback : ℕ)
    (around : Surroundings chunk enter) where
  -- What the kernel is asked to do for a socket: to send the bytes of the buffer in use that were not
  -- sent, from where they stand, by a user with the callback of the stream.
  pub record Pending (s : Stream) (r : Reactor) (request : Option Sqe) : Type 0 where
    pub entry :
        request
        ≡ some (record {
          opcode = Opcode.send;
          fd = s.fd;
          off = 0;
          addr = address s.output.bytes + s.output.partial_write;
          len = (length (buffer_data s.output.bytes) - s.output.partial_write) % word32;
          op_flags = 0;
          user_data = s.output.id;
        })
    pub known :
        r.user s.output.id ≡ record { callback = Callback.client send_callback; state = self }

  -- `stream_send` returns the stream with the id of its request, which is not 0.
  pub record Sends (s : Stream) (run : Option (Stream × Reactor)) : Type 0 where
    pub reactor : Reactor
    pub id : ℕ
    pub ends : run ≡ some (record s { output = record s.output { id = id } }, reactor)
    pub ready : IsReady reactor
    pub nonzero : id ≢ 0
    pub pending :
        Pending (record s { output = record s.output { id = id } }) reactor (newest reactor.ring)

  -- The entries of `stream_send`.
  socket_entry : Stream → ℕ → Sqe
  socket_entry s user = record {
    opcode = Opcode.send;
    fd = s.fd;
    off = 0;
    addr = address s.output.bytes + s.output.partial_write;
    len = sub64 s.output.bytes.size s.output.partial_write % word32;
    op_flags = 0;
    user_data = user;
  }

  file_entry : Stream → ℕ → Sqe
  file_entry s user = record {
    opcode = Opcode.write;
    fd = s.fd;
    off = s.output.offset;
    addr = address s.output.bytes;
    len = s.output.bytes.size % word32;
    op_flags = 0;
    user_data = user;
  }

  send_request-Answers :
      (s : Stream) (r : Reactor)
      → IsReady r
      → Answers
          (record { callback = Callback.client send_callback; state = self })
          (on_socket_else s.kind (socket_entry s) (file_entry s))
          (send_request chunk enter address self send_callback s r)
  unfolding send_request reactor_send reactor_write reactor_user_define buffer_size socket_entry
      file_entry
  send_request-Answers s r h =
      either-Answers s.kind _ _ _ _ _
        (request-Answers chunk enter r (Callback.client send_callback) self _ around h)
        (request-Answers chunk enter r (Callback.client send_callback) self _ around h)

  pub stream_send-Sends :
      (s : Stream) (r : Reactor)
      → s.kind ≡ StreamType.socket
      → IsValid s.output.bytes
      → s.output.partial_write ≤ s.output.bytes.size
      → IsReady r
      → Sends s (stream_send chunk enter address self send_callback s r)
  unfolding stream_send socket_entry
  stream_send-Sends s r kind valid inside h =
      let a = send_request-Answers s r h in
      let left : sub64 s.output.bytes.size s.output.partial_write
          ≡ length (buffer_data s.output.bytes) - s.output.partial_write =
        sub64-eq s.output.bytes.size s.output.partial_write inside
          (omega (arith, valid.fits, valid.small))
        ∙ ap (λ (n : ℕ). n - s.output.partial_write) (size-data s.output.bytes valid) in
      record {
        reactor = a.final;
        id = a.id;
        ends = rw (a.ends) refl;
        ready = a.ready;
        nonzero = a.nonzero;
        pending = record {
          entry =
              a.queued
              ∙ ap
                  (λ (k : StreamType). some (on_socket_else k (socket_entry s) (file_entry s) a.id))
                  kind
              ∙ ap
                  (λ (n : ℕ). some (record {
                    opcode = Opcode.send;
                    fd = s.fd;
                    off = 0;
                    addr = address s.output.bytes + s.output.partial_write;
                    len = n % word32;
                    op_flags = 0;
                    user_data = a.id;
                  }))
                  left;
          known = a.known;
        };
      }
