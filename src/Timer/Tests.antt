-- ===== src/Timer/Tests.antt =====
-- A timer at a concrete reactor.
use libreactor_refactor.Prelude.{◌+◌, ◌≡◌, refl, some, [], arith}
use libreactor_refactor.Pool.Tests.{chunk, first_apart}
use libreactor_refactor.Reactor.State.{Callback}
use libreactor_refactor.Reactor.Tests.{reactor, reactor-Waits, enter, enter-Takes}
use libreactor_refactor.Timer.Defs.{Timer, timer_set, timer_submit, timer_timeout}
use libreactor_refactor.Timer.Laws.{Armed, timer_set-Armed, timer_timeout-Armed}

abbrev timer : Timer
timer = record {
  user = record { callback = Callback.client 2; state = 0 };
  time = 1_500_000_000;
  delay = 250_000_000;
  timeout = 0;
  tv_sec = 0;
  tv_nsec = 0;
}

timer_set-Armed_example :
    Armed chunk enter 1 4096 4160 reactor [] [] enter-Takes reactor-Waits
      (omega arith)
      first_apart
      (timer_set chunk enter 1 4096 4160 timer 2_500_000_000 0 reactor)
      timer.user
      2_500_000_000
timer_set-Armed_example =
    timer_set-Armed chunk enter 1 4096 4160 reactor [] [] enter-Takes reactor-Waits (omega arith)
      first_apart timer 2_500_000_000 0 refl

timer_timeout-Armed_example :
    (a : Armed chunk enter 1 4096 4160 reactor [] [] enter-Takes reactor-Waits
      (omega arith)
      first_apart
      (timer_submit chunk enter 1 4096 4160
        (record timer { timeout = 0; time = timer.time + timer.delay })
        reactor)
      timer.user
      1_750_000_000)
    × (timer_timeout chunk enter 1 4096 4160 timer reactor
        ≡ some (a.timer, a.asked.final, timer.user, 1_500_000_000))
timer_timeout-Armed_example =
    timer_timeout-Armed chunk enter 1 4096 4160 reactor [] [] enter-Takes reactor-Waits
      (omega arith) first_apart timer (λ e. absurd (omega (arith, e))) (omega arith)
