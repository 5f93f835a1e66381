-- ===== src/Queue/Pops.antt =====
-- src/reactor/queue.c: a consumer gives the user each element of a read, in order.
use libreactor_refactor.Prelude.{
  ◌>>=◌, ℕ, zero, suc, ◌+◌, ◌*◌, ◌%◌, ◌≤◌, ◌<◌, Bool, true, false, Option, some, List, [], ◌∷◌, leb,
  ◌==◌, if◌then◌else◌, ◌≡◌, ◌≢◌, refl, ap, ◌∙◌, arith, Option-cases, inl, inr,
}
use native.Mathlib.Nat.{suc-mul, mul-mod_left}
use libreactor_refactor.Buffer.{Buffer}
use libreactor_refactor.Reactor.{Enter}
use libreactor_refactor.Reactor.State.{Reactor}
use libreactor_refactor.Stream.{Result}
use libreactor_refactor.Queue.Producer.{Queue}
use libreactor_refactor.Queue.Consumer.{
  Consumer, Pop, pop_from, queue_consumer_update, pop_all, queue_consumer_read,
}

-- The offsets of so many elements from one on.
abbrev pub offsets : ℕ → ℕ → ℕ → List ℕ
offsets element_size o zero = []
offsets element_size o (suc k) = o ∷ offsets element_size (o + element_size) k

-- The user is called with each offset, until the flag is set.
unfoldable pub pop_each : Pop → List ℕ → Consumer → Reactor → Option (Consumer × Reactor × Bool)
pop_each pop [] c r = some (c, r, false)
pop_each pop (o ∷ os) c r = do
  (d, q, aborted) ← pop o (record c { abort = true }) r
  let rest = pop_each pop os (record d { abort = false }) q
  if aborted then some (d, q, true) else rest

-- A call that does not close the consumer leaves it with its queue.
abbrev pub KeepsQueue : Queue → Pop → Type 0
KeepsQueue queue pop =
    (o : ℕ) (c d : Consumer) (r q : Reactor)
    → c.queue ≡ some queue
    → pop o c r ≡ some (d, q, false)
    → d.queue ≡ some queue

module _ (queue : Queue) (sized : queue.element_size ≢ 0) (pop : Pop)
    (keeps : KeepsQueue queue pop) where
  pop_from-each :
      (fuel k o result : ℕ) (c : Consumer) (r : Reactor)
      → k < fuel
      → result ≡ o + k * queue.element_size
      → c.queue ≡ some queue
      → pop_from pop fuel o result c r ≡ pop_each pop (offsets queue.element_size o k) c r
  unfolding pop_from pop_each
  pop_from-each zero k o result c r enough e opened = absurd (omega arith)
  pop_from-each (suc fuel) zero o result c r enough e opened =
      let test : leb result o ≡ true = ground (arith, e) in rw test refl
  pop_from-each (suc fuel) (suc k) o result c r enough e opened =
      let more : result ≡ o + queue.element_size + k * queue.element_size =
        omega (arith, e, suc-mul k queue.element_size) in
      let test : leb result o ≡ false = ground (arith, more, sized) in
      rw test (elim (Option-cases (pop o (record c { abort = true }) r)) [
        | inl none_there ↦ rw none_there refl
        | inr ((d, q, aborted), ran) ↦ rw ran (
            go
              (λ d q kept.
                pop_from-each fuel k (o + queue.element_size) result (record d { abort = false }) q
                  (omega arith) more kept)
              aborted d q ran)
      ])
    where
      go :
          ((d : Consumer) (q : Reactor)
            → d.queue ≡ some queue
            → pop_from pop fuel (o + queue.element_size) result (record d { abort = false }) q
              ≡ pop_each pop
                  (offsets queue.element_size (o + queue.element_size) k)
                  (record d { abort = false })
                  q)
          → (aborted : Bool) (d : Consumer) (q : Reactor)
          → pop o (record c { abort = true }) r ≡ some (d, q, aborted)
          → (if aborted
              then some (d, q, true)
              else (d.queue >>= λ queue.
                  pop_from pop fuel (o + queue.element_size) result (record d { abort = false }) q))
            ≡ (if aborted
                then some (d, q, true)
                else pop_each pop
                    (offsets queue.element_size (o + queue.element_size) k)
                    (record d { abort = false })
                    q)
      go ih true d q ran = refl
      go ih false d q ran =
          let kept = keeps o (record c { abort = true }) d r q opened ran in
          ap
            (λ (m : Option Queue). m >>= λ queue.
              pop_from pop fuel (o + queue.element_size) result (record d { abort = false }) q)
            kept
          ∙ ih d q kept

  -- `queue_consumer_read` of a read of so many elements, one at least, where a call of the user that
  -- does not close the consumer leaves it with its queue: the user is called with each element, in the
  -- order of the bytes, until the consumer is closed; if it is not, the next read is asked for.
  pub queue_consumer_read-each :
      (chunk : ℕ → ℕ) (enter : Enter) (address : Buffer → ℕ)
      (self read_callback cancel_callback k : ℕ) (c : Consumer) (r : Reactor)
      → 1 ≤ k
      → c.queue ≡ some queue
      → queue_consumer_read chunk enter address self read_callback cancel_callback pop c r
          (Result.count (k * queue.element_size))
        ≡ (do
          (d, q, aborted) ← pop_each pop (offsets queue.element_size 0 k) (record c { read = 0 }) r
          let updated =
              queue_consumer_update chunk enter address self read_callback cancel_callback d q
          if aborted then some (d, q) else updated)
  unfolding queue_consumer_read pop_all
  queue_consumer_read-each chunk enter address self read_callback cancel_callback k c r any opened =
      let n = k * queue.element_size in
      let enough : k ≤ n = grind (arith, sized) in
      let some_bytes : (n == 0) ≡ false = ground (arith, enough, any) in
      let has_size : (queue.element_size == 0) ≡ false = ground (arith, sized) in
      let whole : (n % queue.element_size == 0) ≡ true =
        ground (arith, mul-mod_left k queue.element_size) in
      let loop =
        pop_from-each (suc n) k 0 n (record c { read = 0 }) r (omega (arith, enough)) (omega arith)
          opened in
      ap
        (λ (m : Option Queue). m >>= λ queue.
          pop_all chunk enter address self read_callback cancel_callback pop queue c r n)
        opened
      ∙ rw (some_bytes, has_size, whole, loop) refl
