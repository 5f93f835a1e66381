-- ===== src/Stream/Output.antt =====
-- src/reactor/stream.c: the output of a stream. The state is the stream and the reactor. The callback
-- of the kernel returns the call of the user with which it ends, if there is one.
use libreactor_refactor.Prelude.{
  ◌>>=◌, ℕ, ◌+◌, Bool, ◌&&◌, Option, none, some, length, ◌==◌, if◌then◌else◌,
}
use libreactor_refactor.Words.{add64, sub64}
use libreactor_refactor.Memory.{Memory, store}
use libreactor_refactor.Buffer.{Buffer, buffer_allocate, buffer_empty, buffer_size, buffer_clear}
use libreactor_refactor.Reactor.{Enter}
use libreactor_refactor.Reactor.State.{Callback, Reactor}
use libreactor_refactor.Reactor.Files.{reactor_write}
use libreactor_refactor.Reactor.Sockets.{reactor_send}
use libreactor_refactor.Stream.Defs.{Stream, on_socket_else, StreamEvent, Result}

-- `memcpy(buffer_allocate(b, size), base, size)`
unfoldable pub append : Buffer → Memory → Option Buffer
unfolding buffer_allocate store
append b x = do
  let (room, place) = buffer_allocate b (length x)
  filled ← store room.base place x
  some (record room { base = filled })

unfoldable pub stream_write : Stream → Memory → Option Stream
unfolding append
stream_write s x = do
  b ← append s.output.next x
  some (record s { output = record s.output { next = b } })

unfoldable pub stream_flushed : Stream → Bool
unfolding buffer_empty
stream_flushed s = buffer_empty s.output.bytes && buffer_empty s.output.next

-- What a callback of the stream does: the new state, and the call of the user, if any.
abbrev pub Outcome : Type 0
Outcome = Option (Stream × Reactor × Option StreamEvent)

-- `address` is where a buffer has its block, `self` the address of the stream, and `send_callback`
-- that of `stream_send_callback`; `chunk` and `enter` are those of the reactor.
module _ (chunk : ℕ → ℕ) (enter : Enter) (address : Buffer → ℕ) (self send_callback : ℕ) where
  -- The request of `stream_send`.
  unfoldable pub send_request : Stream → Reactor → Option (Reactor × ℕ)
  unfolding reactor_send reactor_write buffer_size
  send_request s r =
      let o = s.output in
      let on_socket =
        reactor_send chunk enter (Callback.client send_callback) self s.fd
          (address o.bytes + o.partial_write) (sub64 (buffer_size o.bytes) o.partial_write) 0 r in
      let on_file =
        reactor_write chunk enter (Callback.client send_callback) self s.fd (address o.bytes)
          (buffer_size o.bytes) o.offset r in
      on_socket_else s.kind on_socket on_file

  unfoldable pub stream_send : Stream → Reactor → Option (Stream × Reactor)
  unfolding send_request
  stream_send s r = do
    (q, id) ← send_request s r
    some (record s { output = record s.output { id = id } }, q)

  unfoldable pub stream_flush : Stream → Reactor → Option (Stream × Reactor)
  unfolding stream_flushed stream_send
  stream_flush s r =
      let o = s.output in
      let sent =
        stream_send (record s { output = record o { bytes = o.next; next = o.bytes } }) r in
      if stream_flushed s then some (s, r) else if o.id == 0 then sent else some (s, r)

  -- The part of `stream_send_callback` for a request that was written in full.
  unfoldable pub sent_all : Stream → Reactor → ℕ → Outcome
  unfolding buffer_clear stream_flush stream_flushed add64
  sent_all s r n = do
    let o = s.output
    let done = record s {
      output = record o {
        partial_write = 0;
        bytes = buffer_clear o.bytes;
        offset = add64 o.offset n;
      };
    }
    (t, q) ← stream_flush done r
    some (t, q, if stream_flushed t then some StreamEvent.flushed else none)

  -- And the part for a partial write.
  unfoldable pub sent_some : Stream → Reactor → ℕ → Outcome
  unfolding stream_send add64
  sent_some s r n = do
    let o = s.output
    (t, q) ←
        stream_send (record s { output = record o { partial_write = add64 o.partial_write n } }) r
    some (t, q, none)

  unfoldable pub stream_send_callback : Stream → Reactor → Result → Outcome
  unfolding sent_all sent_some buffer_size sub64
  stream_send_callback s r (Result.failed e) =
      some (record s { output = record s.output { id = 0 } }, r, some (StreamEvent.error e))
  stream_send_callback s r (Result.count n) =
      let o = s.output in
      let idle = record s { output = record o { id = 0 } } in
      if n == 0
      then some (idle, r, some (StreamEvent.error 0))
      else if sub64 (buffer_size o.bytes) o.partial_write == n
      then sent_all idle r n
      else sent_some idle r n
