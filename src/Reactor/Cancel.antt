-- ===== src/Reactor/Cancel.antt =====
-- src/reactor/reactor.c: a planned call that is cancelled is not made.
use libreactor_refactor.Prelude.{
  ℕ, zero, suc, ◌+◌, ◌/◌, ◌%◌, ◌^◌, ◌≤◌, ◌<◌, bit_and, bit_or, bit_and_step, bit_or_step,
  bit_and-mask, true, false, Option, some, ◌==◌, ◌≡◌, ◌≢◌, refl, ap, ◌∙◌, arith,
}
use libreactor_refactor.Reactor.Defs.{Enter}
use libreactor_refactor.Reactor.State.{
  Callback, Event, Reactor, reactor_cancel, write_user, reactor_user_define,
}
use libreactor_refactor.Reactor.Loop.{reactor_call, called}

bit_or_none : (bound x : ℕ) → x ≤ bound → bit_or x 0 ≡ x
bit_or_none bound zero le = refl
bit_or_none zero (suc x) le = absurd (omega arith)
bit_or_none (suc bound) (suc x) le =
    omega (arith, bit_or_none bound (suc x / 2) (omega arith), bit_or_step (suc x) 0)

-- The mark of a call that is not a request, on an even address.
bit_or-mark : (a : ℕ) → a % 2 ≡ 0 → bit_or a 1 ≡ a + 1
bit_or-mark a even = omega (arith, bit_or_step a 1, bit_or_none (a / 2) (a / 2) (omega arith))

mark : (a : ℕ) → a % 2 ≡ 0 → bit_and (bit_or a 1) 1 ≡ 1
mark a even = omega (arith, bit_and-mask 1 (bit_or a 1), bit_or-mark a even)

unmarked : (a : ℕ) → a % 2 ≡ 0 → a < 2 ^ 64 → bit_and (bit_or a 1) 0xFFFF_FFFF_FFFF_FFFE ≡ a
unmarked a even small =
    ap (λ (x : ℕ). bit_and x 0xFFFF_FFFF_FFFF_FFFE) (bit_or-mark a even)
    ∙ omega (
      arith,
      bit_and_step (a + 1) 0xFFFF_FFFF_FFFF_FFFE,
      ap (λ (x : ℕ). bit_and x 0x7FFF_FFFF_FFFF_FFFF) (half a even),
      bit_and-mask 63 (a / 2),
    )
  where
    half : (a : ℕ) → a % 2 ≡ 0 → (a + 1) / 2 ≡ a / 2
    half a even = omega arith

module _ (chunk : ℕ → ℕ) (enter : Enter) (clients : ℕ → Event → Reactor → Option Reactor) where
  -- `reactor_cancel` without a callback, of a planned call whose user has an even address below 2 ^ 64:
  -- it asks nothing of the kernel; the call is still in its place, but to make it changes nothing; and
  -- the other users stay.
  pub reactor_cancel-silent :
      (a state : ℕ) (r : Reactor)
      → a % 2 ≡ 0
      → a < 2 ^ 64
      → (s : Reactor) × (reactor_cancel chunk enter (bit_or a 1) Callback.null state r ≡ some s)
        × (s.next ≡ r.next)
        × (s.ring ≡ r.ring)
        × (reactor_call clients enter (s.user a) 0 0 s ≡ some s)
        × ((b : ℕ) → b ≢ a → s.user b ≡ r.user b)
  unfolding reactor_cancel reactor_call write_user reactor_user_define called
  reactor_cancel-silent a state r even small =
      let here : (a == a) ≡ true = ground arith in
      (
        write_user r a (reactor_user_define Callback.null state),
        rw (mark a even, unmarked a even small) refl,
        refl,
        refl,
        rw here refl,
        λ b n. (let other : (b == a) ≡ false = ground (arith, n) in rw other refl),
      )
