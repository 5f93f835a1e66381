-- ===== src/Reactor/Ready.antt =====
-- A reactor that answers every request: what a client of src/reactor/reactor.c relies on.
use libreactor_refactor.Prelude.{
  ℕ, ◌≡◌, ◌≢◌, Option, some, List, ◌∷◌, [], ◌++◌, ◌==◌, if◌then◌else◌, refl, true, arith, bit_or,
  bit_or_step,
}
use libreactor_refactor.Pool.{push_back}
use libreactor_refactor.Pool.Address.{NonZero, pool_malloc-NonZero}
use libreactor_refactor.Reactor.Defs.{Sqe, Enter}
use libreactor_refactor.Reactor.Ring.{Holds, Takes, flushed, submit-Holds, newest, newest-Holds}
use libreactor_refactor.Reactor.State.{
  Callback, User, Reactor, reactor_alloc_user, write_user, request, reactor_user_define,
  reactor_next,
}

-- Requests wait in the ring, and no free user is at the address 0.
pub record IsReady (r : Reactor) : Type 0 where
  pub waiting : List Sqe
  pub ring : Holds r.ring waiting
  pub free : NonZero r.users.free

-- A run that queues an entry for a new user, and returns the user's address, which is not 0; the reactor
-- is ready again.
pub record Answers (user : User) (entry : ℕ → Sqe) (run : Option (Reactor × ℕ)) : Type 0 where
  pub final : Reactor
  pub id : ℕ
  pub ends : run ≡ some (final, id)
  pub ready : IsReady final
  pub nonzero : id ≢ 0
  pub queued : newest final.ring ≡ some (entry id)
  pub known : final.user id ≡ user

-- A run that plans the call of a new user, whose address with its lowest bit set is returned.
pub record Plans (r : Reactor) (user : User) (run : Option (Reactor × ℕ)) : Type 0 where
  pub final : Reactor
  pub address : ℕ
  pub ends : run ≡ some (final, bit_or address 1)
  pub ready : IsReady final
  pub nonzero : bit_or address 1 ≢ 0
  pub planned : final.next ≡ r.next ++ (address ∷ [])
  pub known : final.user address ≡ user

-- What the reactor asks of its surroundings: a kernel that takes the requests, and an allocator
-- that does not return NULL.
pub record Surroundings (chunk : ℕ → ℕ) (enter : Enter) : Type 0 where
  pub takes : Takes enter
  pub placed : (n : ℕ) → chunk n ≢ 0

known_at : (f : ℕ → User) (a : ℕ) (u : User) → (if a == a then u else f a) ≡ u
known_at f a u = let same : (a == a) ≡ true = ground arith in rw same refl

-- Every request on a reactor that is ready is answered.
pub request-Answers :
    (chunk : ℕ → ℕ) (enter : Enter) (r : Reactor) (callback : Callback) (state : ℕ)
    (entry : ℕ → Sqe)
    → Surroundings chunk enter
    → IsReady r
    → Answers
        (reactor_user_define callback state)
        entry
        (request chunk enter callback state entry r)
unfolding request reactor_alloc_user write_user
request-Answers chunk enter r callback state entry around h =
    let (users, id, made, free, nonzero) = pool_malloc-NonZero chunk around.placed r.users h.free in
    let (ring, queued, held) = submit-Holds enter r.ring h.waiting (entry id) around.takes h.ring in
    record {
      final = record r {
        users = users;
        ring = ring;
        user = λ a. if a == id then reactor_user_define callback state else r.user a;
      };
      id = id;
      ends = rw (made, queued) refl;
      ready = record { waiting = flushed h.waiting ++ (entry id ∷ []); ring = held; free = free };
      nonzero = nonzero;
      queued = newest-Holds ring (flushed h.waiting) (entry id) held;
      known = known_at r.user id (reactor_user_define callback state);
    }

odd_nonzero : (a : ℕ) → bit_or a 1 ≢ 0
odd_nonzero a e = absurd (omega (arith, bit_or_step a 1))

-- Every call for the next round is answered.
pub reactor_next-Plans :
    (chunk : ℕ → ℕ) (enter : Enter) (r : Reactor) (callback : Callback) (state : ℕ)
    → Surroundings chunk enter
    → IsReady r
    → Plans r (reactor_user_define callback state) (reactor_next chunk enter callback state r)
unfolding reactor_next reactor_alloc_user write_user
reactor_next-Plans chunk enter r callback state around h =
    let (users, id, made, free, nonzero) = pool_malloc-NonZero chunk around.placed r.users h.free in
    record {
      final = record r {
        users = users;
        user = λ a. if a == id then reactor_user_define callback state else r.user a;
        next = push_back r.next id;
      };
      address = id;
      ends = rw made refl;
      ready = record { waiting = h.waiting; ring = h.ring; free = free };
      nonzero = odd_nonzero id;
      planned = unfold push_back in refl;
      known = known_at r.user id (reactor_user_define callback state);
    }
