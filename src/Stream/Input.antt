-- ===== src/Stream/Input.antt =====
-- src/reactor/stream.c: the input of a stream, and the end of a stream.
use libreactor_refactor.Prelude.{◌>>=◌, ℕ, ◌+◌, ◌^◌, Option, none, some, ltb, ◌==◌, if◌then◌else◌}
use libreactor_refactor.Words.{add64}
use libreactor_refactor.Memory.{Memory}
use libreactor_refactor.Buffer.{
  Buffer, buffer_reserve, buffer_resize, buffer_size, buffer_end, buffer_erase, buffer_data,
  buffer_deconstruct, buffer_destruct,
}
use libreactor_refactor.Reactor.{Enter}
use libreactor_refactor.Reactor.State.{Callback, Reactor, reactor_cancel}
use libreactor_refactor.Reactor.Files.{reactor_read}
use libreactor_refactor.Reactor.Sockets.{reactor_recv}
use libreactor_refactor.Stream.Defs.{Stream, on_socket_else, StreamEvent, Result, minus_one}
use libreactor_refactor.Stream.Output.{Outcome}

unfoldable pub stream_recv_callback : Stream → Reactor → Result → Outcome
unfolding buffer_end buffer_size buffer_resize add64
stream_recv_callback s r (Result.failed e) =
    some (record s { input = record s.input { id = 0 } }, r, some (StreamEvent.error e))
stream_recv_callback s r (Result.count n) =
    let i = s.input in
    let more = record i {
      id = 0;
      offset = add64 i.offset n;
      bytes = buffer_resize i.bytes (add64 (buffer_size i.bytes) n);
    } in
    if n == 0
    then some (record s { input = record i { id = 0 } }, r, some StreamEvent.close)
    else some (record s { input = more }, r, some (StreamEvent.read (buffer_end i.bytes) n))

unfoldable pub stream_consume : Stream → ℕ → Option Stream
unfolding buffer_erase
stream_consume s size = do
  b ← buffer_erase s.input.bytes 0 size
  some (record s { input = record s.input { bytes = b } })

unfoldable pub stream_data : Stream → Memory
unfolding buffer_data
stream_data s = buffer_data s.input.bytes

module _ (chunk : ℕ → ℕ) (enter : Enter) (address : Buffer → ℕ)
    (self recv_callback release_buffer : ℕ) where
  -- The request of `stream_read`, into the room behind the bytes of `b`.
  unfoldable pub recv_request : Stream → Buffer → ℕ → Reactor → Option (Reactor × ℕ)
  unfolding reactor_recv reactor_read buffer_end
  recv_request s b size r =
      let on_socket =
        reactor_recv chunk enter (Callback.client recv_callback) self s.fd
          (address b + buffer_end b) size 0 r in
      let on_file =
        reactor_read chunk enter (Callback.client recv_callback) self s.fd
          (address b + buffer_end b) size s.input.offset r in
      on_socket_else s.kind on_socket on_file

  unfoldable pub stream_read : Stream → ℕ → Reactor → Option (Stream × Reactor)
  unfolding buffer_reserve buffer_size recv_request add64
  stream_read s size r =
      let b = buffer_reserve s.input.bytes (add64 (buffer_size s.input.bytes) size) in
      let asked = (do
        (q, id) ← recv_request s b size r
        some (record s { input = record s.input { bytes = b; id = id } }, q)) in
      if s.input.id == 0 then asked else none

  -- The kernel may still use the block: it is freed by the callback of the cancelled request.
  unfoldable pub stream_cancel_io : ℕ → Buffer → Reactor → Option (Reactor × Buffer)
  unfolding reactor_cancel buffer_deconstruct
  stream_cancel_io id b r = do
    q ← reactor_cancel chunk enter id (Callback.client release_buffer) (address b) r
    some (q, (buffer_deconstruct b).0)

  unfoldable pub close_input : Stream → Reactor → Option (Stream × Reactor)
  unfolding stream_cancel_io
  close_input s r =
      let cancelled = (do
        (q, b) ← stream_cancel_io s.input.id s.input.bytes r
        some (record s { input = record s.input { bytes = b; id = 0 } }, q)) in
      if s.input.id == 0 then some (s, r) else cancelled

  unfoldable pub close_output : Stream → Reactor → Option (Stream × Reactor)
  unfolding stream_cancel_io
  close_output s r =
      let cancelled = (do
        (q, b) ← stream_cancel_io s.output.id s.output.bytes r
        some (record s { output = record s.output { bytes = b; id = 0 } }, q)) in
      if s.output.id == 0 then some (s, r) else cancelled

  unfoldable pub stream_close : Stream → Reactor → Option (Stream × Reactor)
  unfolding close_input close_output
  stream_close s r = do
    (t, q) ← close_input s r
    (u, p) ← close_output t q
    some (record u { fd = if ltb u.fd (2 ^ 31) then minus_one else u.fd }, p)

  unfoldable pub stream_destruct : Stream → Reactor → Option (Stream × Reactor)
  unfolding stream_close buffer_destruct
  stream_destruct s r = do
    (t, q) ← stream_close s r
    some (
      record t {
        input = record t.input { bytes = buffer_destruct t.input.bytes };
        output = record t.output {
          bytes = buffer_destruct t.output.bytes;
          next = buffer_destruct t.output.next;
        };
      },
      q,
    )
