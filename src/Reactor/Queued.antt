-- ===== src/Reactor/Queued.antt =====
-- The requests of src/reactor/reactor.c: each takes a user that was free, and queues one entry that
-- names it.
use libreactor_refactor.Prelude.{
  ℕ, ◌+◌, ◌<◌, Option, some, true, false, List, [], ◌∷◌, ◌++◌, length, ◌==◌, if◌then◌else◌, ◌≡◌,
  refl, arith,
}
use mathlib.Core.Path.{subst}
use mathlib.Core.List.{Mem, Nodup}
use native.Mathlib.Decide.{ℕ_discrete}
use libreactor_refactor.Words.{word}
use libreactor_refactor.Pool.{refill}
use libreactor_refactor.Pool.Laws.{IsValid, objects, pool_malloc-IsValid}
use libreactor_refactor.Reactor.Defs.{Opcode, Sqe, Enter}
use libreactor_refactor.Reactor.Ring.{Holds, Takes, flushed, submit-Holds}
use libreactor_refactor.Reactor.State.{
  Callback, Reactor, reactor_user_define, write_user, reactor_alloc_user, request,
}

module _ (chunk : ℕ → ℕ) where
  -- The reactor `r` has these users in use, and these requests wait in its ring.
  pub record Waits (r : Reactor) (used : List ℕ) (es : List Sqe) : Type 0 where
    pub users : IsValid chunk r.users used
    pub ring : Holds r.ring es

  -- The run returns an id that was not in use. It is the address of a user with this callback and
  -- state, and the `user_data` of the one new request, which stands behind those that wait. The
  -- other users keep their callbacks.
  pub record Queues (r : Reactor) (used : List ℕ) (es : List Sqe) (op : Opcode)
      (callback : Callback) (state : ℕ) (run : Option (Reactor × ℕ)) : Type 0 where
    pub final : Reactor
    pub id : ℕ
    pub entry : Sqe
    pub ends : run ≡ some (final, id)
    pub fresh : ¬ Mem id used
    pub waits : Waits final (id ∷ used) (flushed es ++ (entry ∷ []))
    pub opcode : entry.opcode ≡ op
    pub names : entry.user_data ≡ id
    pub user : final.user id ≡ reactor_user_define callback state
    pub others : (a : ℕ) → Mem a used → final.user a ≡ r.user a

  module _ (enter : Enter) (r : Reactor) (used : List ℕ) (es : List Sqe) (takes : Takes enter)
      (waits : Waits r used es) (small : length used + 1 < word)
      (apart : Nodup (objects chunk r.users.size (refill chunk r.users).chunks)) where
    -- As below, and the entry is the one that was asked for, with the id.
    pub request-queued :
        (op : Opcode) (callback : Callback) (state : ℕ) (entry : ℕ → Sqe)
        → ((user : ℕ) → (entry user).opcode ≡ op)
        → ((user : ℕ) → (entry user).user_data ≡ user)
        → (q : Queues r used es op callback state (request chunk enter callback state entry r))
          × (q.entry ≡ entry q.id)
    unfolding request reactor_alloc_user write_user
    request-queued op callback state entry opcode names =
        let (users, id, made, valid, fresh) =
          pool_malloc-IsValid chunk r.users used waits.users small apart in
        let (ring, queued, held) = submit-Holds enter r.ring es (entry id) takes waits.ring in
        let u = reactor_user_define callback state in
        let self : (id == id) ≡ true = ground arith in
        (
          record {
            final = record r {
              users = users;
              ring = ring;
              user = λ a. if a == id then u else r.user a;
            };
            id = id;
            entry = entry id;
            ends = rw (made, queued) refl;
            fresh = fresh;
            waits = record { users = valid; ring = held };
            opcode = opcode id;
            names = names id;
            user = rw self refl;
            others = λ a m. elim (ℕ_discrete a id) [
              | yes e ↦ absurd (fresh (subst (λ (x : ℕ). Mem x used) e m))
              | no n ↦ let other : (a == id) ≡ false = ground arith in rw other refl
            ];
          },
          refl,
        )

    pub request-Queues :
        (op : Opcode) (callback : Callback) (state : ℕ) (entry : ℕ → Sqe)
        → ((user : ℕ) → (entry user).opcode ≡ op)
        → ((user : ℕ) → (entry user).user_data ≡ user)
        → Queues r used es op callback state (request chunk enter callback state entry r)
    request-Queues op callback state entry opcode names =
        (request-queued op callback state entry opcode names).0
