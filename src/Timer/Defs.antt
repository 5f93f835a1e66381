-- ===== src/Timer/Defs.antt =====
-- src/reactor/timer.c: one function for each of the source. The state is the timer and the reactor.
-- `timer_timeout` returns the call with which it ends: the user, and the time whose address is passed.
use libreactor_refactor.Prelude.{◌>>=◌, ℕ, ◌/◌, ◌%◌, Option, some, ◌==◌, if◌then◌else◌}
use libreactor_refactor.Words.{add64}
use libreactor_refactor.Reactor.{Enter}
use libreactor_refactor.Reactor.State.{Callback, User, Reactor, reactor_user_define, reactor_cancel}
use libreactor_refactor.Reactor.Files.{reactor_timeout}

-- `tv_sec` and `tv_nsec` are the members of `tv`.
pub record Timer : Type 0 where
  pub user : User
  pub time : ℕ
  pub delay : ℕ
  pub timeout : ℕ
  pub tv_sec : ℕ
  pub tv_nsec : ℕ

unfoldable pub timer_construct : Callback → ℕ → Timer
unfolding reactor_user_define
timer_construct callback state = record {
  user = reactor_user_define callback state;
  time = 0;
  delay = 0;
  timeout = 0;
  tv_sec = 0;
  tv_nsec = 0;
}

-- `chunk` and `enter` are those of the reactor, `handler` is the address of `timer_timeout`, `self`
-- that of the timer, and `tv` that of its `tv`.
module _ (chunk : ℕ → ℕ) (enter : Enter) (handler : ℕ) (self : ℕ) (tv : ℕ) where
  -- 9 is IORING_TIMEOUT_ABS | IORING_TIMEOUT_REALTIME.
  unfoldable pub timer_submit : Timer → Reactor → Option (Timer × Reactor)
  unfolding reactor_timeout
  timer_submit t r = do
    (s, id) ← reactor_timeout chunk enter (Callback.client handler) self tv 0 9 r
    some (
      record t { tv_sec = t.time / 1_000_000_000; tv_nsec = t.time % 1_000_000_000; timeout = id },
      s,
    )

  unfoldable pub timer_timeout : Timer → Reactor → Option (Timer × Reactor × User × ℕ)
  unfolding timer_submit add64
  timer_timeout t r = do
    let idle = record t { timeout = 0 }
    let again = timer_submit (record idle { time = add64 t.time t.delay }) r
    (next, s) ← if t.delay == 0 then some (idle, r) else again
    some (next, s, next.user, t.time)

  unfoldable pub timer_clear : Timer → Reactor → Option (Timer × Reactor)
  unfolding reactor_cancel
  timer_clear t r =
      let cancelled = (do
        s ← reactor_cancel chunk enter t.timeout Callback.null 0 r
        some (record t { timeout = 0 }, s)) in
      if t.timeout == 0 then some (t, r) else cancelled

  unfoldable pub timer_destruct : Timer → Reactor → Option (Timer × Reactor)
  unfolding timer_clear
  timer_destruct = timer_clear

  unfoldable pub timer_set : Timer → ℕ → ℕ → Reactor → Option (Timer × Reactor)
  unfolding timer_clear timer_submit
  timer_set t time delay r = do
    (cleared, s) ← timer_clear t r
    timer_submit (record cleared { time = time; delay = delay }) s
