-- ===== src/Server/Session.antt =====
-- src/reactor/server.c: one session, a `server_request` of the source. The state is the session and the
-- reactor; a session that was disconnected is freed.
use libreactor_refactor.Prelude.{
  ◌>>=◌, ℕ, zero, suc, ◌+◌, ◌^◌, Bool, true, false, Option, none, some, List, [], ◌∷◌, ◌++◌, length,
  take, drop, ltb, leb, ◌==◌, if◌then◌else◌,
}
use libreactor_refactor.Words.{add64, sub64}
use libreactor_refactor.Memory.{Memory}
use libreactor_refactor.Buffer.{Buffer, buffer_data}
use libreactor_refactor.Reactor.{Enter}
use libreactor_refactor.Reactor.State.{Callback, Reactor}
use libreactor_refactor.Reactor.Files.{reactor_close}
use libreactor_refactor.Stream.{
  Stream, StreamEvent, stream_flushed, stream_flush, stream_data, stream_consume, stream_read,
  stream_destruct,
}
use libreactor_refactor.Http.{
  cells, http_write_response, Parser, ReadRequest, incomplete, invalid, http_read_request,
}

-- `abort` is whether the pointer is set; `request` is what `http_read_request` set last.
pub record Session : Type 0 where
  pub stream : Stream
  pub stream_offset : ℕ
  pub abort : Bool
  pub in_progress : Bool
  pub request : Option ReadRequest

-- The bytes up to the first that was never set.
abbrev pub known : Memory → List ℕ
known [] = []
known (none ∷ m) = []
known (some c ∷ m) = c ∷ known m

-- What `http_read_request` finds in the input from the offset on: the bytes there, and what lies behind
-- them in the block.
unfoldable pub read_at : Parser → Buffer → ℕ → Option ReadRequest
unfolding http_read_request buffer_data sub64
read_at parse b o =
    let m = known (drop o b.base) in
    let size = sub64 (length (buffer_data b)) o in
    let request = http_read_request parse m size 16 in if leb size (length m) then request else none

-- The input after that; a body in chunks was joined in its place.
unfoldable pub joined_at : Buffer → ℕ → ReadRequest → Buffer
joined_at b o request = record b {
  base = take o b.base ++ (cells request.memory ++ drop (o + length request.memory) b.base);
}

unfoldable pub with_input : Session → ReadRequest → Session
unfolding joined_at
with_input s request = record s {
  stream = record s.stream {
    input = record s.stream.input {
      bytes = joined_at s.stream.input.bytes s.stream_offset request;
    };
  };
  request = some request;
}

-- What the user's callback makes of the session and of the reactor. The flag at `abort` is set by
-- `server_disconnect`, which frees the session, and by nothing else.
abbrev pub Handler : Type 0
Handler = Session → Reactor → Option (Option Session × Reactor)

-- The branch for a result: -1, -2, or a number above 0.
unfoldable pub by_result : {A : Type 0} → ℕ → Option A → Option A → Option A → Option A
by_result n refused waiting handled =
    if n == invalid
    then refused
    else if n == incomplete
    then waiting
    else if n == 0
    then none
    else if ltb n (2 ^ 31)
    then handled
    else none

-- The parameters are those of the stream, whose address is `self`.
module _ (chunk : ℕ → ℕ) (enter : Enter) (address : Buffer → ℕ)
    (self send_callback recv_callback release_buffer : ℕ) where
  unfoldable pub server_flush : Session → Reactor → Option (Session × Reactor)
  unfolding stream_flush
  server_flush s r = do
    (t, q) ← stream_flush chunk enter address self send_callback s.stream r
    some (record s { stream = t }, q)

  unfoldable pub server_read : Session → Reactor → Option (Session × Reactor)
  unfolding stream_consume stream_read
  server_read s r = do
    t ← stream_consume s.stream s.stream_offset
    (u, q) ← stream_read chunk enter address self recv_callback release_buffer t 16384 r
    some (record s { stream = u; stream_offset = 0 }, q)

  unfoldable pub server_io : Session → Reactor → Option (Session × Reactor)
  unfolding stream_flushed server_flush server_read
  server_io s r = if stream_flushed s.stream then server_read s r else server_flush s r

  unfoldable pub server_disconnect : Session → Reactor → Option (Option Session × Reactor)
  unfolding reactor_close stream_destruct
  server_disconnect s r = do
    (q, id) ← reactor_close chunk enter Callback.null 0 s.stream.fd r
    (t, p) ← stream_destruct chunk enter address self recv_callback release_buffer s.stream q
    some (none, p)

  -- A run that leaves the session there.
  abbrev pub kept : Option (Session × Reactor) → Option (Option Session × Reactor)
  kept run = run >>= λ (s, r). some (some s, r)

  -- `date` is that of the server.
  unfoldable pub server_respond :
      Memory → Session → Reactor → Memory → Memory → Memory → Option (Session × Reactor)
  unfolding http_write_response server_flush
  server_respond date s r status type body =
      let responded = (do
        b ← http_write_response s.stream.output.next status date type body
        let t = record s {
          in_progress = false;
          stream = record s.stream { output = record s.stream.output { next = b } };
        }
        let flushed = server_flush t r
        if s.abort then some (t, r) else flushed) in
      if s.in_progress then responded else none

  module _ (parse : Parser) (handle : Handler) where
    -- The session as the user gets it, with a request of so many bytes.
    unfoldable pub begin : Session → ReadRequest → Session
    unfolding with_input add64
    begin s request = record (with_input s request) {
      stream_offset = add64 s.stream_offset request.result;
      abort = true;
      in_progress = true;
    }

    -- What follows the call of the user; `rest` is the next round.
    unfoldable pub continue_with :
        (Session → Reactor → Option (Option Session × Reactor))
        → Option Session × Reactor
        → Option (Option Session × Reactor)
    unfolding server_flush
    continue_with rest (none, q) = some (none, q)
    continue_with rest (some t, q) =
        let idle = record t { abort = false } in
        let flushed = kept (server_flush idle q) in
        let next = rest idle q in if t.in_progress then flushed else next

    -- A round of `server_parse` behind the call of `http_read_request`.
    unfoldable pub round :
        (Session → Reactor → Option (Option Session × Reactor))
        → Session
        → Reactor
        → ReadRequest
        → Option (Option Session × Reactor)
    unfolding by_result with_input begin server_disconnect server_io continue_with
    round rest s r request =
        by_result request.result (server_disconnect (with_input s request) r)
          (kept (server_io (with_input s request) r))
          (handle (begin s request) r >>= continue_with rest)

    -- Of so many rounds; a round takes at least one byte.
    unfoldable pub parse_from : ℕ → Session → Reactor → Option (Option Session × Reactor)
    unfolding read_at round
    parse_from zero s r = none
    parse_from (suc fuel) s r =
        read_at parse s.stream.input.bytes s.stream_offset >>= round (parse_from fuel) s r

    unfoldable pub server_parse : Session → Reactor → Option (Option Session × Reactor)
    unfolding parse_from stream_data
    server_parse s = parse_from (suc (length (stream_data s.stream))) s

    unfoldable pub server_stream_callback :
        StreamEvent → Session → Reactor → Option (Option Session × Reactor)
    unfolding server_parse server_read server_disconnect stream_data
    server_stream_callback (StreamEvent.read place size) s r = server_parse s r
    server_stream_callback StreamEvent.flushed s r =
        let again = kept (server_read s r) in
        let parsed = server_parse s r in
        if s.in_progress
        then some (some s, r)
        else if length (stream_data s.stream) == s.stream_offset
        then again
        else parsed
    server_stream_callback (StreamEvent.error e) s r = server_disconnect s r
    server_stream_callback StreamEvent.close s r = server_disconnect s r
