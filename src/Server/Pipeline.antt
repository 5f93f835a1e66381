-- ===== src/Server/Pipeline.antt =====
-- src/reactor/server.c: requests that are in the input one behind the other are answered in order.
use libreactor_refactor.Prelude.{
  ◌>>=◌, ℕ, suc, ◌+◌, ◌^◌, ◌≤◌, ◌<◌, true, false, Option, some, List, [], ◌∷◌, ◌++◌, length, ltb,
  ◌==◌, ◌≡◌, refl, sym, ap, ◌∙◌, arith, append-nil,
}
use mathlib.Core.Path.{subst}
use libreactor_refactor.Words.{add64, add64-eq}
use libreactor_refactor.Memory.{Memory}
use libreactor_refactor.Buffer.{Buffer, buffer_data}
use libreactor_refactor.Reactor.{Enter}
use libreactor_refactor.Reactor.State.{Reactor}
use libreactor_refactor.Stream.Flow.{Flows}
use libreactor_refactor.Buffer.Insert.{Yields}
use libreactor_refactor.Http.{http_write_response, Parser, ReadRequest, incomplete, invalid}
use libreactor_refactor.Http.Response.{response}
use libreactor_refactor.Server.Session.{
  Session, read_at, joined_at, with_input, Handler, server_io, server_respond, begin, by_result,
  round, continue_with, parse_from,
}
use libreactor_refactor.Server.Respond.{with_next, respond-within}

-- What the user answers a request with: the status, the type and the body.
abbrev pub Reply : Type 0
Reply = ReadRequest → Memory × Memory × Memory

abbrev pub text_of : Memory → Reply → ReadRequest → Memory
text_of date reply request = response (reply request).0 date (reply request).1 (reply request).2

-- The responses to some requests, one behind the other.
abbrev pub responses : Memory → Reply → List ReadRequest → Memory
responses date reply [] = []
responses date reply (request ∷ rest) = text_of date reply request ++ responses date reply rest

-- From the offset `o` on, the input has just these requests whole, of less than 2 ^ 31 bytes each, up to
-- the offset `e`, and then an incomplete one, which may be empty: a malformed one, for which the session
-- is closed, is excluded. None of them has a body in chunks, which would change the input when it is
-- joined.
abbrev pub Splits : Parser → Buffer → ℕ → List ReadRequest → ℕ → Type 0
Splits parse b o [] e =
    (request : ReadRequest) × (read_at parse b o ≡ some request)
    × (request.result ≡ incomplete)
    × (joined_at b o request ≡ b)
    × (o ≡ e)
Splits parse b o (request ∷ rest) e =
    (read_at parse b o ≡ some request)
    × (0 < request.result)
    × (request.result < 2 ^ 31)
    × (joined_at b o request ≡ b)
    × (o + request.result ≤ length (buffer_data b))
    × Splits parse b (o + request.result) rest e

-- The bodies are of less than 2 ^ 32 bytes.
abbrev pub Short : Reply → List ReadRequest → Type 0
Short reply [] = Unit
Short reply (request ∷ rest) = (length (reply request).2 < 2 ^ 32) × Short reply rest

by_result-incomplete :
    {A : Type 0} (n : ℕ) (a b c : Option A) → n ≡ incomplete → by_result n a b c ≡ b
unfolding by_result
by_result-incomplete n a b c e =
    let first : (n == invalid) ≡ false = ground (arith, e) in
    let second : (n == incomplete) ≡ true = ground (arith, e) in rw (first, second) refl

by_result-more :
    {A : Type 0} (n : ℕ) (a b c : Option A) → 0 < n → n < 2 ^ 31 → by_result n a b c ≡ c
unfolding by_result
by_result-more n a b c pos small =
    let first : (n == invalid) ≡ false = ground (arith, small) in
    let second : (n == incomplete) ≡ false = ground (arith, small) in
    let third : (n == 0) ≡ false = ground (arith, pos) in
    let fourth : ltb n (2 ^ 31) ≡ true = ground (arith, small) in
    rw (first, second, third, fourth) refl

with_input-same :
    (s : Session) (request : ReadRequest)
    → joined_at s.stream.input.bytes s.stream_offset request ≡ s.stream.input.bytes
    → with_input s request ≡ record s { request = some request }
unfolding with_input
with_input-same s request same =
    ap
      (λ (b : Buffer). record s {
        stream = record s.stream { input = record s.stream.input { bytes = b } };
        request = some request;
      })
      same

-- The session as the user gets it, where its input stays.
handed : Session → ReadRequest → Session
handed s request = record s {
  request = some request;
  stream_offset = s.stream_offset + request.result;
  abort = true;
  in_progress = true;
}

-- The session behind the call of the user, who answered.
unfoldable pub answered : Session → ReadRequest → Buffer → Session
answered s request b = record s {
  request = some request;
  stream_offset = s.stream_offset + request.result;
  abort = false;
  in_progress = false;
  stream = with_next s.stream b;
}

module _ (chunk : ℕ → ℕ) (enter : Enter) (address : Buffer → ℕ)
    (self send_callback recv_callback release_buffer : ℕ) (parse : Parser) (date : Memory)
    (reply : Reply) where
  -- A user who answers at once.
  abbrev pub answering : Handler
  answering s r = s.request >>= λ request.
      (let (status, type, body) = reply request in
        server_respond chunk enter address self send_callback recv_callback release_buffer date s r
          status type body
        >>= λ (t, q). some (some t, q))

  abbrev pub parse_on : ℕ → Session → Reactor → Option (Option Session × Reactor)
  parse_on =
      parse_from chunk enter address self send_callback recv_callback release_buffer parse answering

  -- A run that is at its end but for `server_io`, after these responses.
  pub record Answered (run : Option (Option Session × Reactor)) (s : Session) (r : Reactor)
      (sent written x : Memory) (e : ℕ) : Type 0 where
    pub session : Session
    pub ends : run ≡ (
        server_io chunk enter address self send_callback recv_callback release_buffer session r
        >>= λ (t, q). some (some t, q))
    pub flows : Flows session.stream r sent (written ++ x)
    pub next : buffer_data session.stream.output.next ≡ buffer_data s.stream.output.next ++ x
    pub offset : session.stream_offset ≡ e
    pub input : session.stream.input.bytes ≡ s.stream.input.bytes

  parse_from-reads :
      (fuel : ℕ) (s : Session) (r : Reactor) (request : ReadRequest)
      → read_at parse s.stream.input.bytes s.stream_offset ≡ some request
      → parse_on (suc fuel) s r
        ≡ round chunk enter address self send_callback recv_callback release_buffer parse answering
            (parse_on fuel)
            s
            r
            request
  unfolding parse_from
  parse_from-reads fuel s r request found =
      ap
        (λ (o : Option ReadRequest).
          o
          >>= round chunk enter address self send_callback recv_callback release_buffer parse
              answering (parse_on fuel) s r)
        found

  -- The last round, with an incomplete request.
  pub parse_from-waits :
      (fuel e : ℕ) (s : Session) (r : Reactor) (sent written : Memory)
      → Flows s.stream r sent written
      → Splits parse s.stream.input.bytes s.stream_offset [] e
      → Answered (parse_on (suc fuel) s r) s r sent written [] e
  unfolding round
  parse_from-waits fuel e s r sent written f (request, found, result, same, there) = record {
    session = record s { request = some request };
    ends =
        parse_from-reads fuel s r request found
        ∙ by_result-incomplete request.result _ _ _ result
        ∙ ap
            (λ (t : Session).
              server_io chunk enter address self send_callback recv_callback release_buffer t r
              >>= λ (t, q). some (some t, q))
            (with_input-same s request same);
    flows = subst (λ (l : Memory). Flows s.stream r sent l) (sym (append-nil written)) f;
    next = sym (append-nil (buffer_data s.stream.output.next));
    offset = there;
    input = refl;
  }

  begin-handed :
      (s : Session) (request : ReadRequest)
      → joined_at s.stream.input.bytes s.stream_offset request ≡ s.stream.input.bytes
      → s.stream_offset + request.result < 2 ^ 64
      → begin chunk enter address self send_callback recv_callback release_buffer parse answering s
          request
        ≡ handed s request
  unfolding begin handed
  begin-handed s request same small =
      ap
        (λ (t : Session). record t {
          stream_offset = add64 s.stream_offset request.result;
          abort = true;
          in_progress = true;
        })
        (with_input-same s request same)
      ∙ ap
          (λ (o : ℕ). record s {
            request = some request;
            stream_offset = o;
            abort = true;
            in_progress = true;
          })
          (add64-eq s.stream_offset request.result small)

  -- A round with a whole request, which the user answers.
  pub parse_from-answers :
      (fuel : ℕ) (s : Session) (r : Reactor) (request : ReadRequest)
      → read_at parse s.stream.input.bytes s.stream_offset ≡ some request
      → 0 < request.result
      → request.result < 2 ^ 31
      → joined_at s.stream.input.bytes s.stream_offset request ≡ s.stream.input.bytes
      → s.stream_offset + request.result < 2 ^ 64
      → (y : Yields
          (http_write_response s.stream.output.next
            (reply request).0
            date
            (reply request).1
            (reply request).2)
          (buffer_data s.stream.output.next ++ text_of date reply request))
      → parse_on (suc fuel) s r ≡ parse_on fuel (answered s request y.final) r
  unfolding round continue_with handed answered
  parse_from-answers fuel s r request found pos small same fits y =
      let respond =
        respond-within chunk enter address self send_callback recv_callback release_buffer date
          (handed s request) r (reply request).0 (reply request).1 (reply request).2 y refl refl in
      parse_from-reads fuel s r request found
      ∙ by_result-more request.result _ _ _ pos small
      ∙ ap
          (λ (t : Session).
            answering t r
            >>= continue_with chunk enter address self send_callback recv_callback release_buffer
                parse answering (parse_on fuel))
          (begin-handed s request same fits)
      ∙ ap
          (λ (o : Option (Session × Reactor)).
            o
            >>= (λ (t, q). some (some t, q))
            >>= continue_with chunk enter address self send_callback recv_callback release_buffer
                parse answering (parse_on fuel))
          respond
