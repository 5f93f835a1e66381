-- ===== src/Stream/Steps.antt =====
-- The runs of a socket stream, step by step: nothing is lost, repeated or reordered.
use libreactor_refactor.Prelude.{
  ◌≢◌, ◌⊎◌, inl, inr, if◌then◌else◌, ℕ, ◌+◌, ◌≤◌, ◌<◌, true, false, Option, some, [], ◌∷◌, ◌++◌,
  length, take, ◌==◌, ◌≡◌, refl, sym, ap, ◌∙◌, arith, append_assoc, length-append,
}
use mathlib.Core.Path.{subst}
use native.Mathlib.Decide.{ℕ_discrete}
use libreactor_refactor.Words.{sub64, sub64-eq}
use libreactor_refactor.Memory.{Memory}
use libreactor_refactor.Memory.Blocks.{front, take-pieces}
use libreactor_refactor.Buffer.Laws.{size-data}
use libreactor_refactor.Buffer.{Buffer, buffer_data, buffer_size}
use libreactor_refactor.Reactor.{Enter, Sqe}
use libreactor_refactor.Reactor.Ring.{newest}
use libreactor_refactor.Stream.Named.{named-next}
use libreactor_refactor.Stream.Ready.{Pending}
use libreactor_refactor.Reactor.State.{Reactor}
use libreactor_refactor.Reactor.Ready.{Surroundings}
use libreactor_refactor.Stream.Defs.{Stream, StreamEvent, Result}
use libreactor_refactor.Stream.Output.{stream_write, sent_some, stream_send_callback}
use libreactor_refactor.Stream.Append.{append-Yields}
use libreactor_refactor.Stream.Run.{
  Action, World, asked, step, IsAllowed, IsFlowing, flush-Leads, sent_all-Leads, sent_some-Leads,
}
use libreactor_refactor.Stream.Flow.{Flows, Asks}

module _ (chunk : ℕ → ℕ) (enter : Enter) (address : Buffer → ℕ) (self send_callback : ℕ)
    (around : Surroundings chunk enter) where
  -- The entry of a request that is on its way names the next bytes.
  asked-next :
      (w : World)
      → (f : Flows w.stream w.reactor w.sent w.written)
      → Pending chunk enter address self send_callback around w.stream w.reactor w.request
      → (v : Memory) × (f.rest ≡ asked address w ++ v)
  asked-next w f p =
      named-next address w.stream.output.bytes _ w.request f.gone f.rest f.bytes_valid f.bytes
        p.entry (ap (λ (n : ℕ). address w.stream.output.bytes + n) f.partial)
        (omega (arith, ap length f.bytes, length-append f.gone f.rest, f.partial))

  callback-Leads :
      (w : World) (n : ℕ)
      → (f : Flows w.stream w.reactor w.sent w.written)
      → Pending chunk enter address self send_callback around w.stream w.reactor w.request
      → 0 < n
      → n ≤ length (asked address w)
      → (v : Stream) × (q : Reactor) × (e : Option StreamEvent) × (stream_send_callback chunk enter
            address self send_callback w.stream w.reactor
            (Result.count n)
          ≡ some (v, q, e))
        × Flows v q (w.sent ++ take n (asked address w)) w.written
        × Asks chunk enter address self send_callback around v q
  unfolding stream_send_callback buffer_size
  callback-Leads w n f p pos le =
      let s = w.stream in
      let r = w.reactor in
      let sent = w.sent in
      let written = w.written in
      let o = s.output in
      let idle = record s { output = record o { id = 0 } } in
      let (beyond, next) = asked-next w f p in
      let (x, z, asked_split, xlen) = front (asked address w) n le in
      let y = z ++ beyond in
      let split : f.rest ≡ x ++ y =
        next ∙ ap (λ (l : Memory). l ++ beyond) asked_split ∙ append_assoc x z beyond in
      let took : take n (asked address w) ≡ x =
        ap (take n) asked_split ∙ ap (λ (k : ℕ). take k (x ++ z)) (sym xlen) ∙ take-pieces x z in
      let parts : length f.rest ≡ length x + length y = ap length split ∙ length-append x y in
      let size : o.bytes.size ≡ length f.gone + length f.rest =
        size-data o.bytes f.bytes_valid ∙ ap length f.bytes ∙ length-append f.gone f.rest in
      let left : sub64 o.bytes.size o.partial_write ≡ length f.rest =
        sub64-eq o.bytes.size o.partial_write (omega (arith, size, f.partial))
          (omega (arith, f.bytes_valid.fits, f.bytes_valid.small))
        ∙ omega (arith, size, f.partial) in
      let order : written ≡ (sent ++ x) ++ (y ++ buffer_data o.next) =
        f.order
        ∙ ap (λ (l : Memory). sent ++ (l ++ buffer_data o.next)) split
        ∙ ap (λ (l : Memory). sent ++ l) (append_assoc x y (buffer_data o.next))
        ∙ sym (append_assoc sent x (y ++ buffer_data o.next)) in
      let some_left : (n == 0) ≡ false = ground (arith, pos) in
      elim (ℕ_discrete (length y) 0) [
        | yes e ↦
            let test : (sub64 o.bytes.size o.partial_write == n) ≡ true =
              ground (arith, left, parts, e, xlen) in
            let (v, q, ev, run, flows, asks) =
              sent_all-Leads chunk enter address self send_callback around idle r sent written x n
                f.kind f.ready f.bytes_valid f.next_valid refl
                (order
                  ∙ ap (λ (l : Memory). (sent ++ x) ++ (l ++ buffer_data o.next)) (nothing y e)) in
            (
              v,
              q,
              ev,
              rw (some_left, test) run,
              subst (λ (l : Memory). Flows v q (sent ++ l) written) (sym took) flows,
              asks,
            )
        | no k ↦
            let test : (sub64 o.bytes.size o.partial_write == n) ≡ false =
              ground (arith, left, parts, k, xlen) in
            let (v, q, ev, run, flows, asks) =
              sent_some-Leads chunk enter address self send_callback around idle r sent written
                f.gone x y f.kind f.ready f.bytes_valid f.next_valid
                (f.bytes ∙ ap (λ (l : Memory). f.gone ++ l) split) f.partial order in
            (
              v,
              q,
              ev,
              rw (some_left, test)
                  (ap (λ (m : ℕ). sent_some chunk enter address self send_callback idle r m)
                      (sym xlen)
                    ∙ run),
              subst (λ (l : Memory). Flows v q (sent ++ l) written) (sym took) flows,
              asks,
            )
      ]
    where
      nothing : (l : Memory) → length l ≡ 0 → l ≡ []
      nothing [] e = refl
      nothing (c ∷ l) e = absurd (omega arith)

  -- A change behind the next bytes.
  still-Pending :
      (s : Stream) (b : Buffer) (r : Reactor) (request : Option Sqe)
      → (s.output.id ≡ 0) ⊎ Pending chunk enter address self send_callback around s r request
      → (s.output.id ≡ 0)
        ⊎ Pending chunk enter address self send_callback around
            (record s { output = record s.output { next = b } })
            r
            request
  still-Pending s b r request (inl idle) = inl idle
  still-Pending s b r request (inr p) = inr (record { entry = p.entry; known = p.known })

  -- What is on its way behind a flush.
  flushed-Pending :
      (s t : Stream) (r q : Reactor) (request : Option Sqe)
      → (s.output.id ≡ 0) ⊎ Pending chunk enter address self send_callback around s r request
      → ((s.output.id ≡ 0) × Asks chunk enter address self send_callback around t q)
        ⊎ ((s.output.id ≢ 0) × (t ≡ s) × (q ≡ r))
      → (t.output.id ≡ 0)
        ⊎ Pending chunk enter address self send_callback around t q
            (if s.output.id == 0 then newest q.ring else request)
  flushed-Pending s t r q request before (inl (idle, asks)) =
      let test : (s.output.id == 0) ≡ true = ground (arith, idle) in rw test asks
  flushed-Pending s t r q request before (inr (busy, same, there)) =
      let test : (s.output.id == 0) ≡ false = ground (arith, busy) in
      rw test (
        subst
          (λ (t : Stream).
            (t.output.id ≡ 0) ⊎ Pending chunk enter address self send_callback around t q request)
          (sym same)
          (subst
            (λ (q : Reactor).
              (s.output.id ≡ 0) ⊎ Pending chunk enter address self send_callback around s q request)
            (sym there) before))

  -- On a reactor that answers, every allowed action on a socket stream succeeds. What was written is
  -- afterwards what the kernel took, what is on its way and what waits, in this order; and the entry of
  -- a request that is on its way asks the kernel to send, on the descriptor of the stream, the bytes
  -- that are next, as many as 32 bits of their number say.
  pub step-IsFlowing :
      (a : Action) (w : World)
      → IsFlowing chunk enter address self send_callback around w
      → IsAllowed chunk enter address self send_callback a w
      → (v : World) × (step chunk enter address self send_callback a w ≡ some v)
        × IsFlowing chunk enter address self send_callback around v
  unfolding step stream_write
  step-IsFlowing (Action.write x) w g fits =
      let f = g.flows in
      let o = w.stream.output in
      let y = append-Yields o.next x f.next_valid fits in
      (
        record w {
          stream = record w.stream { output = record o { next = y.final } };
          written = w.written ++ x;
        },
        rw (y.ends) refl,
        record {
          flows = record {
            kind = f.kind;
            ready = f.ready;
            bytes_valid = f.bytes_valid;
            next_valid = y.valid;
            gone = f.gone;
            rest = f.rest;
            bytes = f.bytes;
            partial = f.partial;
            order =
                ap (λ (l : Memory). l ++ x) f.order
                ∙ append_assoc w.sent (f.rest ++ buffer_data o.next) x
                ∙ ap (λ (l : Memory). w.sent ++ l)
                    (append_assoc f.rest (buffer_data o.next) x
                      ∙ ap (λ (l : Memory). f.rest ++ l) (sym y.holds));
            state = f.state;
          };
          pending = still-Pending w.stream y.final w.reactor w.request g.pending;
        },
      )
  step-IsFlowing Action.flush w g ok =
      let l =
        flush-Leads chunk enter address self send_callback around w.stream w.reactor w.sent
          w.written g.flows in
      (
        record w {
          stream = l.stream;
          reactor = l.reactor;
          request = if w.stream.output.id == 0 then newest l.reactor.ring else w.request;
        },
        rw (l.ends) refl,
        record {
          flows = l.flows;
          pending =
              flushed-Pending w.stream l.stream w.reactor l.reactor w.request g.pending l.asks;
        },
      )
  step-IsFlowing (Action.taken n) w g ok = elim g.pending [
    | inl idle ↦ absurd (ok.0 idle)
    | inr p ↦
        let (s, r, e, run, flows, asks) = callback-Leads w n g.flows p ok.1 ok.2 in
        (
          record w {
            stream = s;
            reactor = r;
            request = newest r.ring;
            sent = w.sent ++ take n (asked address w);
          },
          rw run refl,
          record { flows = flows; pending = asks },
        )
  ]
