-- ===== src/Queue/Steps.antt =====
-- src/reactor/queue.c: a producer step by step: nothing is lost, repeated or reordered.
use libreactor_refactor.Prelude.{
  ◌>>=◌, ℕ, ◌+◌, ◌%◌, ◌^◌, ◌≤◌, ◌<◌, true, false, Option, some, [], ◌++◌, length, take, ◌==◌,
  if◌then◌else◌, ◌⊎◌, ◌≡◌, ◌≢◌, inl, inr, refl, sym, ap, ◌∙◌, arith, append-nil, append_assoc,
  length-append,
}
use mathlib.Core.Path.{subst}
use libreactor_refactor.Words.{add64, add64-eq}
use libreactor_refactor.Memory.{Memory}
use libreactor_refactor.Memory.Blocks.{front, take-pieces}
use libreactor_refactor.Buffer.Laws.{size-data}
use libreactor_refactor.Buffer.{Buffer, buffer_data, buffer_size, buffer_insert}
use libreactor_refactor.Buffer.Insert.{buffer_insert-Yields}
use libreactor_refactor.Reactor.{Enter, Sqe}
use libreactor_refactor.Reactor.Ring.{newest}
use libreactor_refactor.Stream.Named.{named-next}
use libreactor_refactor.Reactor.State.{Reactor}
use libreactor_refactor.Reactor.Ready.{Surroundings}
use libreactor_refactor.Queue.Producer.{
  Queue, Producer, queue_producer_update, queue_producer_write, queue_producer_push, wrote, push_to,
}
use libreactor_refactor.Queue.Flow.{Holds, Flows}
use libreactor_refactor.Queue.Leads.{Pending, Leads, update-Leads}
use libreactor_refactor.Queue.Run.{Action, World, asked, turn, IsAllowed, IsFlowing}

module _ (chunk : ℕ → ℕ) (enter : Enter) (address : Buffer → ℕ)
    (self write_callback cancel_callback : ℕ) (queue : Queue) (around : Surroundings chunk enter)
    (small : queue.output < 2 ^ 31) (sized : queue.element_size ≢ 0) where
  busy-update :
      (p : Producer) (r : Reactor)
      → (p.write == 0) ≡ false
      → queue_producer_update chunk enter address self write_callback cancel_callback p r
        ≡ some (p, r)
  unfolding queue_producer_update
  busy-update p r test = rw test refl

  push-Leads :
      (p : Producer) (r : Reactor) (request : Option Sqe) (sent pushed x : Memory)
      → Flows queue p r sent pushed
      → (p.write ≡ 0)
        ⊎ Pending chunk enter address self write_callback cancel_callback around queue p r request
      → length x ≡ queue.element_size
      → p.output_queued.size + length x ≤ 2 ^ 63
      → Leads chunk enter address self write_callback cancel_callback around queue
          (push_to chunk enter address self write_callback cancel_callback queue p x r)
          sent
          (pushed ++ x)
          (λ q. if p.write == 0 then newest q.ring else request)
  unfolding push_to buffer_size
  push-Leads p r request sent pushed x f before len fits =
      let h = f.holds in
      let old = buffer_data p.output_queued in
      let size = size-data p.output_queued h.queued_valid in
      let y =
        buffer_insert-Yields p.output_queued old [] x h.queued_valid (sym (append-nil old))
          (omega (arith, size, fits)) in
      let inserted : buffer_insert p.output_queued p.output_queued.size x ≡ some y.final =
        ap (λ (k : ℕ). buffer_insert p.output_queued k x) size ∙ y.ends in
      let next = record p { output_queued = y.final } in
      let held : Holds queue next r sent (pushed ++ x) = record {
        opened = h.opened;
        ready = h.ready;
        output_valid = h.output_valid;
        queued_valid = y.valid;
        gone = h.gone;
        rest = h.rest;
        bytes = h.bytes;
        offset = h.offset;
        order =
            ap (λ (l : Memory). l ++ x) h.order
            ∙ join sent h.rest old x
            ∙ ap (λ (l : Memory). sent ++ (h.rest ++ l))
                (sym (y.holds ∙ ap (λ (l : Memory). old ++ l) (append-nil x)));
      } in
      let whole : (length x == queue.element_size) ≡ true = ground (arith, len) in
      elim f.state [
        | inl busy ↦
            let test : (p.write == 0) ≡ false = ground (arith, busy) in
            record {
              producer = next;
              reactor = r;
              ends = rw (whole, inserted) (busy-update next r test);
              flows = record { holds = held; state = inl busy };
              pending = rw test (still p y.final r request before);
            }
        | inr (idle, all) ↦
            let test : (p.write == 0) ≡ true = ground (arith, idle) in
            let l =
              update-Leads chunk enter address self write_callback cancel_callback around queue next
                r sent (pushed ++ x) small idle held in
            record {
              producer = l.producer;
              reactor = l.reactor;
              ends = rw (whole, inserted) l.ends;
              flows = l.flows;
              pending = rw test l.pending;
            }
      ]
    where
      join : (a b c d : Memory) → (a ++ (b ++ c)) ++ d ≡ a ++ (b ++ (c ++ d))
      join a b c d = simp append_assoc

      still :
          (p : Producer) (b : Buffer) (r : Reactor) (request : Option Sqe)
          → (p.write ≡ 0)
            ⊎ Pending chunk enter address self write_callback cancel_callback around queue p r
                request
          → (p.write ≡ 0)
            ⊎ Pending chunk enter address self write_callback cancel_callback around queue
                (record p { output_queued = b })
                r
                request
      still p b r request (inl idle) = inl idle
      still p b r request (inr q) = inr (record { entry = q.entry; known = q.known })

  asked-next :
      (w : World)
      → (h : Holds queue w.producer w.reactor w.sent w.pushed)
      → Pending chunk enter address self write_callback cancel_callback around queue w.producer
          w.reactor w.request
      → (v : Memory) × (h.rest ≡ asked address w ++ v)
  asked-next w h p =
      named-next address w.producer.output _ w.request h.gone h.rest h.output_valid h.bytes p.entry
        (ap (λ (n : ℕ). address w.producer.output + n) h.offset)
        (omega (arith, ap length h.bytes, length-append h.gone h.rest, h.offset))

  taken-Leads :
      (w : World) (n : ℕ)
      → Holds queue w.producer w.reactor w.sent w.pushed
      → Pending chunk enter address self write_callback cancel_callback around queue w.producer
          w.reactor w.request
      → 0 < n
      → n % queue.element_size ≡ 0
      → n ≤ length (asked address w)
      → Leads chunk enter address self write_callback cancel_callback around queue
          (wrote chunk enter address self write_callback cancel_callback queue w.producer w.reactor
            n)
          (w.sent ++ take n (asked address w))
          w.pushed
          (λ r. newest r.ring)
  unfolding wrote buffer_size
  taken-Leads w n h request pos whole le =
      let p = w.producer in
      let r = w.reactor in
      let sent = w.sent in
      let pushed = w.pushed in
      let size = size-data p.output h.output_valid ∙ ap length h.bytes in
      let parts = length-append h.gone h.rest in
      let (beyond, next) = asked-next w h request in
      let (x, z, asked_split, xlen) = front (asked address w) n le in
      let y = z ++ beyond in
      let split : h.rest ≡ x ++ y =
        next ∙ ap (λ (l : Memory). l ++ beyond) asked_split ∙ append_assoc x z beyond in
      let enough : n ≤ length h.rest =
        omega (arith, ap length next, length-append (asked address w) beyond, le) in
      let took : take n (asked address w) ≡ x =
        ap (take n) asked_split ∙ ap (λ (k : ℕ). take k (x ++ z)) (sym xlen) ∙ take-pieces x z in
      let sum : add64 p.output_offset n ≡ length (h.gone ++ x) =
        add64-eq p.output_offset n
          (omega (arith, h.offset, size, parts, enough, h.output_valid.fits, h.output_valid.small))
        ∙ omega (arith, h.offset, length-append h.gone x, xlen) in
      let idle = record p { write = 0; output_offset = add64 p.output_offset n } in
      let l =
        update-Leads chunk enter address self write_callback cancel_callback around queue idle r
          (sent ++ x) pushed small refl
          (record {
            opened = h.opened;
            ready = h.ready;
            output_valid = h.output_valid;
            queued_valid = h.queued_valid;
            gone = h.gone ++ x;
            rest = y;
            bytes =
                h.bytes ∙ ap (λ (l : Memory). h.gone ++ l) split ∙ sym (append_assoc h.gone x y);
            offset = sum;
            order =
                h.order
                ∙ ap (λ (l : Memory). sent ++ (l ++ buffer_data p.output_queued)) split
                ∙ simp append_assoc;
          }) in
      let some_taken : (n == 0) ≡ false = ground (arith, pos) in
      let has_size : (queue.element_size == 0) ≡ false = ground (arith, sized) in
      let all : (n % queue.element_size == 0) ≡ true = ground (arith, whole) in
      record {
        producer = l.producer;
        reactor = l.reactor;
        ends = rw (some_taken, has_size, all) l.ends;
        flows =
            subst (λ (k : Memory). Flows queue l.producer l.reactor (sent ++ k) pushed) (sym took)
              l.flows;
        pending = l.pending;
      }

  opened-run :
      (w : World)
      → IsFlowing chunk enter address self write_callback cancel_callback queue around small sized w
      → (f : Queue → Option (Producer × Reactor)) → (w.producer.queue >>= f) ≡ f queue
  opened-run w flows f = ap (λ (o : Option Queue). o >>= f) flows.flows.holds.opened

  -- On a reactor that answers, every allowed action on an open producer succeeds. What was pushed
  -- is afterwards what the kernel took, what is on its way and what waits, in this order; and if no
  -- request is on its way, the kernel took all of it. The entry of a request that is on its way asks
  -- the kernel to write to the pipe the bytes that are next, of 128 elements at most, as many as 32
  -- bits of their number say.
  pub turn-IsFlowing :
      (a : Action) (w : World)
      → IsFlowing chunk enter address self write_callback cancel_callback queue around small sized w
      → IsAllowed chunk enter address self write_callback cancel_callback queue a w
      → (v : World) × (turn chunk enter address self write_callback cancel_callback a w ≡ some v)
        × IsFlowing chunk enter address self write_callback cancel_callback queue around small sized
            v
  unfolding turn queue_producer_push queue_producer_write
  turn-IsFlowing (Action.push x) w f ok =
      let l =
        push-Leads w.producer w.reactor w.request w.sent w.pushed x f.flows f.pending ok.0 ok.1 in
      let run =
        opened-run w f (λ q.
          push_to chunk enter address self write_callback cancel_callback q w.producer x w.reactor)
        ∙ l.ends in
      (
        record w {
          producer = l.producer;
          reactor = l.reactor;
          request = if w.producer.write == 0 then newest l.reactor.ring else w.request;
          pushed = w.pushed ++ x;
        },
        rw run refl,
        record { flows = l.flows; pending = l.pending },
      )
  turn-IsFlowing (Action.taken n) w f ok = elim f.pending [
    | inl idle ↦ absurd (ok.0 idle)
    | inr p ↦
        let l = taken-Leads w n f.flows.holds p ok.1 ok.2 ok.3 in
        let run =
          opened-run w f (λ q.
            wrote chunk enter address self write_callback cancel_callback q w.producer w.reactor n)
          ∙ l.ends in
        (
          record w {
            producer = l.producer;
            reactor = l.reactor;
            request = newest l.reactor.ring;
            sent = w.sent ++ take n (asked address w);
          },
          rw run refl,
          record { flows = l.flows; pending = l.pending },
        )
  ]
  turn-IsFlowing Action.broken w f ok =
      let h = f.flows.holds in
      let l =
        update-Leads chunk enter address self write_callback cancel_callback around queue
          (record w.producer { write = 0 }) w.reactor w.sent w.pushed small refl
          (record {
            opened = h.opened;
            ready = h.ready;
            output_valid = h.output_valid;
            queued_valid = h.queued_valid;
            gone = h.gone;
            rest = h.rest;
            bytes = h.bytes;
            offset = h.offset;
            order = h.order;
          }) in
      (
        record w { producer = l.producer; reactor = l.reactor; request = newest l.reactor.ring },
        rw (l.ends) refl,
        record { flows = l.flows; pending = l.pending },
      )
