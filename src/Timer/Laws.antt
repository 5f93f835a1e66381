-- ===== src/Timer/Laws.antt =====
-- src/reactor/timer.c: what the requests of a timer are.
use libreactor_refactor.Prelude.{
  ℕ, ◌+◌, ◌*◌, ◌/◌, ◌%◌, ◌<◌, Option, some, true, false, List, length, ◌==◌, ◌≡◌, ◌≢◌, refl, arith,
}
use mathlib.Core.List.{Nodup}
use libreactor_refactor.Words.{word, add64-eq}
use libreactor_refactor.Pool.{refill}
use libreactor_refactor.Pool.Laws.{objects}
use libreactor_refactor.Reactor.{Opcode, Sqe, Enter}
use libreactor_refactor.Reactor.Ring.{Takes}
use libreactor_refactor.Reactor.State.{Callback, User, Reactor}
use libreactor_refactor.Reactor.Files.{reactor_timeout}
use libreactor_refactor.Reactor.Queued.{Waits, Queues, request-Queues}
use libreactor_refactor.Timer.Defs.{Timer, timer_submit, timer_timeout, timer_clear, timer_set}

module _ (chunk : ℕ → ℕ) (enter : Enter) (handler self tv : ℕ) (r : Reactor) (used : List ℕ)
    (es : List Sqe) (takes : Takes enter) (waits : Waits chunk r used es)
    (small : length used + 1 < word)
    (apart : Nodup (objects chunk r.users.size (refill chunk r.users).chunks)) where
  -- The timer `t` runs from the reactor `r`: `final` has one new request, a timeout for
  -- `timer_timeout` on this timer, under the id that the timer keeps,
  -- and the timer is still `owner`'s. Its `tv` is the time `deadline`.
  pub record Armed (run : Option (Timer × Reactor)) (owner : User) (deadline : ℕ) : Type 0 where
    pub timer : Timer
    pub asked :
        Queues chunk r used es Opcode.timeout
          (Callback.client handler)
          self
          (reactor_timeout chunk enter (Callback.client handler) self tv 0 9 r)
    pub ends : run ≡ some (timer, asked.final)
    pub user : timer.user ≡ owner
    pub kept : timer.timeout ≡ asked.id
    pub time : timer.time ≡ deadline
    pub split : timer.tv_sec * 1_000_000_000 + timer.tv_nsec ≡ deadline
    pub below : timer.tv_nsec < 1_000_000_000

  timer_submit-Armed :
      (t : Timer) → Armed (timer_submit chunk enter handler self tv t r) t.user t.time
  unfolding timer_submit reactor_timeout
  timer_submit-Armed t =
      let q =
        request-Queues chunk enter r used es takes waits small apart Opcode.timeout
          (Callback.client handler) self _ (λ user. refl) (λ user. refl) in
      record {
        timer = record t {
          tv_sec = t.time / 1_000_000_000;
          tv_nsec = t.time % 1_000_000_000;
          timeout = q.id;
        };
        asked = q;
        ends = rw (q.ends) refl;
        user = refl;
        kept = refl;
        time = refl;
        split = omega arith;
        below = omega arith;
      }

  -- `timer_set` on a timer that does not run queues its timeout, for the time given, which
  -- `tv` holds in seconds and nanoseconds.
  pub timer_set-Armed :
      (t : Timer) (time delay : ℕ)
      → t.timeout ≡ 0
      → Armed (timer_set chunk enter handler self tv t time delay r) t.user time
  unfolding timer_set timer_clear
  timer_set-Armed t time delay idle =
      let test : (t.timeout == 0) ≡ true = ground (arith, idle) in
      rw test (timer_submit-Armed (record t { time = time; delay = delay }))

  -- `timer_timeout` of a timer with a delay, whose next time is below 2 ^ 64, asks for the timeout
  -- at its time plus the delay, whenever it runs itself, and reports the time that was asked for.
  pub timer_timeout-Armed :
      (t : Timer)
      → t.delay ≢ 0
      → t.time + t.delay < word
      → (a : Armed
          (timer_submit chunk enter handler self tv
            (record t { timeout = 0; time = t.time + t.delay })
            r)
          t.user
          (t.time + t.delay))
        × (timer_timeout chunk enter handler self tv t r
            ≡ some (a.timer, a.asked.final, t.user, t.time))
  unfolding timer_timeout
  timer_timeout-Armed t periodic fits =
      let next = record t { timeout = 0; time = t.time + t.delay } in
      let a = timer_submit-Armed next in
      let test : (t.delay == 0) ≡ false = ground (arith, periodic) in
      let sum = add64-eq t.time t.delay fits in (a, rw (test, sum, a.ends, a.user) refl)
