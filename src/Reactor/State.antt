-- ===== src/Reactor/State.antt =====
-- The state of src/reactor/reactor.c and its users: a user is an object of a pool, known by its
-- address, which the kernel gets as the `user_data` of a request.
use libreactor_refactor.Prelude.{
  ◌>>=◌, ℕ, ◌+◌, ◌-◌, ◌^◌, Option, some, List, bit_and, bit_or, ◌==◌, ltb, if◌then◌else◌,
}
use libreactor_refactor.Words.{word, word32}
use libreactor_refactor.Pool.{Pool, pool_malloc, pool_free, push_back}
use libreactor_refactor.Reactor.Defs.{Opcode, Sqe, Ring, Enter, submit}

-- A pointer to a function: NULL, `reactor_user_callback`, or one of the program's.
pub data Callback : Type 0 where
  null : Callback
  reactor_user_callback : Callback
  client : ℕ → Callback

pub record User : Type 0 where
  pub callback : Callback
  pub state : ℕ

pub record Event : Type 0 where
  pub state : ℕ
  pub type : ℕ
  pub value : ℕ

unfoldable pub reactor_event_define : ℕ → ℕ → ℕ → Event
reactor_event_define state type value = record { state = state; type = type; value = value }

unfoldable pub reactor_user_define : Callback → ℕ → User
reactor_user_define null state = record { callback = reactor_user_callback; state = state }
reactor_user_define reactor_user_callback state = record {
  callback = reactor_user_callback;
  state = state;
}
reactor_user_define (client n) state = record { callback = client n; state = state }

-- `struct reactor`; `user` gives the contents of the objects of the pool.
pub record Reactor : Type 0 where
  pub references : ℕ
  pub ring : Ring
  pub users : Pool
  pub user : ℕ → User
  pub next : List ℕ
  pub time : ℕ

-- `*user = …`
unfoldable pub write_user : Reactor → ℕ → User → Reactor
write_user r address u = record r { user = λ a. if a == address then u else r.user a }

unfoldable pub reactor_free_user : Reactor → ℕ → Reactor
unfolding pool_free
reactor_free_user r address = record r { users = pool_free r.users address }

-- A request returns the address of its user as its id.
abbrev pub Request : Type 0
Request = Reactor → Option (Reactor × ℕ)

-- An `int` as a `uint64_t`.
unfoldable pub sign_extend : ℕ → ℕ
sign_extend i = if ltb i (2 ^ 31) then i else i + (word - word32)

-- `chunk` is the allocator of the pool, and `enter` the kernel.
module _ (chunk : ℕ → ℕ) (enter : Enter) where
  unfoldable pub reactor_alloc_user : Callback → ℕ → Request
  unfolding pool_malloc write_user reactor_user_define
  reactor_alloc_user callback state r = do
    (users, address) ← pool_malloc chunk r.users
    some (
      write_user (record r { users = users }) address (reactor_user_define callback state),
      address,
    )

  -- The body that the requests share: a user, and an entry of the ring for it.
  unfoldable pub request : Callback → ℕ → (ℕ → Sqe) → Request
  unfolding reactor_alloc_user submit
  request callback state entry r = do
    (s, address) ← reactor_alloc_user callback state r
    ring ← submit enter s.ring (entry address)
    some (record s { ring = ring }, address)

  unfoldable pub reactor_async_cancel : Callback → ℕ → ℕ → Request
  unfolding request
  reactor_async_cancel callback state user_data = request callback state (λ user. record {
    opcode = Opcode.async_cancel;
    fd = 0;
    off = 0;
    addr = user_data;
    len = 0;
    op_flags = 0;
    user_data = user;
  })

  unfoldable pub reactor_next : Callback → ℕ → Request
  unfolding reactor_alloc_user push_back
  reactor_next callback state r = do
    (s, id) ← reactor_alloc_user callback state r
    some (record s { next = push_back s.next id }, bit_or id 1)

  unfoldable pub reactor_cancel : ℕ → Callback → ℕ → Reactor → Option Reactor
  unfolding write_user reactor_user_define reactor_async_cancel
  reactor_cancel id callback state r =
      let user = bit_and id 0xFFFF_FFFF_FFFF_FFFE in
      let s = write_user r user (reactor_user_define callback state) in
      let cancelled = reactor_async_cancel null 0 user s in
      if bit_and id 1 == 0 then (cancelled >>= (λ (t, _). some t)) else some s
