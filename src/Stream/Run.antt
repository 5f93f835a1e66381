-- ===== src/Stream/Run.antt =====
-- The runs of a socket stream: writes, flushes, and completions of its requests, in any order.
use libreactor_refactor.Prelude.{
  ◌>>=◌, ◌⊎◌, ℕ, ◌+◌, ◌^◌, ◌≤◌, ◌<◌, Bool, true, false, Option, some, none, [], ◌++◌, length, take,
  ◌==◌, if◌then◌else◌, ◌≡◌, ◌≢◌, inl, inr, refl, sym, ap, ◌∙◌, arith, append_assoc, length-append,
}
use libreactor_refactor.Words.{add64, add64-eq}
use libreactor_refactor.Memory.{Memory}
use libreactor_refactor.Buffer.{Buffer, buffer_data, buffer_clear}
use libreactor_refactor.Buffer.Laws.{IsValid, size-data}
use libreactor_refactor.Reactor.{Enter, Sqe}
use libreactor_refactor.Reactor.State.{Reactor}
use libreactor_refactor.Reactor.Ready.{IsReady, Surroundings}
use libreactor_refactor.Stream.Defs.{Stream, StreamType, StreamEvent, Result}
use libreactor_refactor.Stream.Output.{
  stream_write, stream_flushed, stream_flush, sent_all, sent_some, stream_send_callback,
}
use libreactor_refactor.Stream.Named.{named_by}
use libreactor_refactor.Stream.Ready.{Pending, stream_send-Sends}
use libreactor_refactor.Reactor.Ring.{newest}
use libreactor_refactor.Stream.Flow.{Flows, Leads, Asks, cleared, flush_idle}

-- `taken n`: the kernel reports that it took `n` bytes.
pub data Action : Type 0 where
  write : Memory → Action
  flush : Action
  taken : ℕ → Action

-- A stream and its reactor, with the entry of the request that was queued last for it, what the kernel
-- took and what the program wrote until now.
pub record World : Type 0 where
  pub stream : Stream
  pub reactor : Reactor
  pub request : Option Sqe
  pub sent : Memory
  pub written : Memory

-- The bytes that the entry names.
abbrev pub asked : (Buffer → ℕ) → World → Memory
asked address w = named_by address w.stream.output.bytes w.request

module _ (chunk : ℕ → ℕ) (enter : Enter) (address : Buffer → ℕ) (self send_callback : ℕ) where
  -- A completed request is what the last entry of the ring asked for, until the next.
  unfoldable pub step : Action → World → Option World
  unfolding stream_write stream_flush stream_send_callback newest
  step (Action.write x) w = do
    s ← stream_write w.stream x
    some (record w { stream = s; written = w.written ++ x })
  step Action.flush w = do
    (s, r) ← stream_flush chunk enter address self send_callback w.stream w.reactor
    let asks = if w.stream.output.id == 0 then newest r.ring else w.request
    some (record w { stream = s; reactor = r; request = asks })
  step (Action.taken n) w = do
    (s, r, _) ←
        stream_send_callback chunk enter address self send_callback w.stream w.reactor
          (Result.count n)
    some (record w {
      stream = s;
      reactor = r;
      request = newest r.ring;
      sent = w.sent ++ take n (asked address w);
    })

  -- The kernel completes a request that it has, by one byte at least and by no more than was asked
  -- for; a buffer stays below 2 ^ 63 bytes.
  abbrev pub IsAllowed : Action → World → Type 0
  IsAllowed (Action.write x) w = w.stream.output.next.size + length x ≤ 2 ^ 63
  IsAllowed Action.flush w = Unit
  IsAllowed (Action.taken n) w = (w.stream.output.id ≢ 0) × (0 < n) × (n ≤ length (asked address w))

  module _ (around : Surroundings chunk enter) where
    -- The output flows, and the entry of a request that is on its way asks for the bytes that are next.
    pub record IsFlowing (w : World) : Type 0 where
      pub flows : Flows w.stream w.reactor w.sent w.written
      pub pending :
          (w.stream.output.id ≡ 0)
          ⊎ Pending chunk enter address self send_callback around w.stream w.reactor w.request

    pub flush-Leads :
        (s : Stream) (r : Reactor) (sent written : Memory)
        → Flows s r sent written
        → Leads chunk enter address self send_callback around s r
            (stream_flush chunk enter address self send_callback s r)
            sent
            written
    unfolding stream_flush stream_flushed
    flush-Leads s r sent written f = elim f.state [
      | inr (idle, no_gone, no_rest) ↦
          let none_left : buffer_data s.output.bytes ≡ [] =
            f.bytes
            ∙ ap (λ (l : Memory). l ++ f.rest) no_gone
            ∙ ap (λ (l : Memory). [] ++ l) no_rest in
          flush_idle chunk enter address self send_callback around s r sent written f.kind f.ready
            f.bytes_valid f.next_valid
            (size-data s.output.bytes f.bytes_valid ∙ ap length none_left)
            (f.partial ∙ ap length no_gone) idle
            (f.order ∙ ap (λ (l : Memory). sent ++ (l ++ buffer_data s.output.next)) no_rest)
      | inl busy ↦
          let test : (s.output.id == 0) ≡ false = ground (arith, busy) in
          record {
            stream = s;
            reactor = r;
            ends = either_way (stream_flushed s) (s.output.id == 0) _ _ test;
            flows = f;
            asks = inr (busy, refl, refl);
          }
    ]
      where
        either_way :
            {A : Type 0} (a b : Bool) (x y : Option A)
            → b ≡ false
            → (if a then x else if b then y else x) ≡ x
        either_way true b x y e = refl
        either_way false b x y e = rw e refl

    -- The kernel took all of the request.
    pub sent_all-Leads :
        (s : Stream) (r : Reactor) (sent written x : Memory) (n : ℕ)
        → s.kind ≡ StreamType.socket
        → IsReady r
        → IsValid s.output.bytes
        → IsValid s.output.next
        → s.output.id ≡ 0
        → written ≡ (sent ++ x) ++ buffer_data s.output.next
        → (v : Stream) × (q : Reactor) × (e : Option StreamEvent) × (sent_all chunk enter address
              self send_callback s r n
            ≡ some (v, q, e))
          × Flows v q (sent ++ x) written
          × Asks chunk enter address self send_callback around v q
    unfolding sent_all buffer_clear
    sent_all-Leads s r sent written x n kind ready bv nv idle order =
        let o = s.output in
        let done = record s {
          output = record o {
            partial_write = 0;
            bytes = buffer_clear o.bytes;
            offset = add64 o.offset n;
          };
        } in
        let l =
          flush_idle chunk enter address self send_callback around done r (sent ++ x) written kind
            ready (cleared o.bytes bv) nv refl refl idle order in
        (
          l.stream,
          l.reactor,
          if stream_flushed l.stream then some StreamEvent.flushed else none,
          rw (l.ends) refl,
          l.flows,
          elim l.asks [ inl (z, asks) ↦ asks | inr (busy, same, there) ↦ absurd (busy idle) ],
        )

    -- The kernel took the first part `x` of the request, and `y` is left.
    pub sent_some-Leads :
        (s : Stream) (r : Reactor) (sent written gone x y : Memory)
        → s.kind ≡ StreamType.socket
        → IsReady r
        → IsValid s.output.bytes
        → IsValid s.output.next
        → buffer_data s.output.bytes ≡ gone ++ (x ++ y)
        → s.output.partial_write ≡ length gone
        → written ≡ (sent ++ x) ++ (y ++ buffer_data s.output.next)
        → (v : Stream) × (q : Reactor) × (e : Option StreamEvent) × (sent_some chunk enter address
              self send_callback s r
              (length x)
            ≡ some (v, q, e))
          × Flows v q (sent ++ x) written
          × Asks chunk enter address self send_callback around v q
    unfolding sent_some
    sent_some-Leads s r sent written gone x y kind ready bv nv bytes partial order =
        let o = s.output in
        let here = record s {
          output = record o { partial_write = add64 o.partial_write (length x) };
        } in
        let size = size-data o.bytes bv ∙ ap length bytes in
        let whole : o.bytes.size ≡ length gone + (length x + length y) =
          omega (arith, size, length-append gone (x ++ y), length-append x y) in
        let sum =
          add64-eq o.partial_write (length x) (omega (arith, partial, whole, bv.fits, bv.small)) in
        let m =
          stream_send-Sends chunk enter address self send_callback around here r kind bv
            (omega (arith, sum, partial, whole)) ready in
        (
          record here { output = record here.output { id = m.id } },
          m.reactor,
          none,
          rw (m.ends) refl,
          record {
            kind = kind;
            ready = m.ready;
            bytes_valid = bv;
            next_valid = nv;
            gone = gone ++ x;
            rest = y;
            bytes = bytes ∙ sym (append_assoc gone x y);
            partial = omega (arith, sum, partial, length-append gone x);
            order = order;
            state = inl m.nonzero;
          },
          inr m.pending,
        )
