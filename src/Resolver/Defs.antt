-- ===== src/Resolver/Defs.antt =====
-- src/reactor/resolver.c: the look-up of a name on another thread. What `getaddrinfo` and `reactor_async`
-- return are parameters. A string that was freed, or never set, is `none`, and a null pointer is 0.
use libreactor_refactor.Prelude.{◌>>=◌, ℕ, Option, none, some, List, ◌==◌, if◌then◌else◌}
use libreactor_refactor.Reactor.State.{
  Callback, User, Event, reactor_event_define, reactor_user_define,
}

-- `struct addrinfo`, as far as it is set; the numbers are the bits of an `int`.
pub record Hints : Type 0 where
  pub flags : ℕ
  pub family : ℕ
  pub socktype : ℕ
  pub protocol : ℕ

pub record Resolver : Type 0 where
  pub user : User
  pub hints : Hints
  pub host : Option (List ℕ)
  pub port : Option (List ℕ)
  pub call : ℕ
  pub code : ℕ
  pub result : ℕ

unfoldable pub resolver_construct : Callback → ℕ → Resolver
unfolding reactor_user_define
resolver_construct callback state = record {
  user = reactor_user_define callback state;
  hints = record { flags = 0; family = 0; socktype = 0; protocol = 0 };
  host = none;
  port = none;
  call = 0;
  code = 0;
  result = 0;
}

unfoldable pub resolver_destruct : Resolver → Resolver
resolver_destruct r = r

-- `id` is what `reactor_async` returns.
unfoldable pub resolver_lookup : ℕ → Resolver → Hints → List ℕ → List ℕ → Option Resolver
resolver_lookup id r hints host port =
    if r.call == 0
    then some (record r { hints = hints; host = some host; port = some port; call = id })
    else none

-- The code and the pointer to the addresses, which `getaddrinfo` leaves alone where it fails.
abbrev pub Lookup : Type 0
Lookup = List ℕ → List ℕ → Hints → ℕ × Option ℕ

-- `resolver_async` at `REACTOR_CALL`, on the thread.
unfoldable pub resolver_async_call : Lookup → Resolver → Option Resolver
resolver_async_call getaddrinfo r = do
  host ← r.host
  port ← r.port
  let (code, result) = getaddrinfo host port r.hints
  some (record r { code = code; result = elim result [ none ↦ r.result | some ai ↦ ai ] })

-- RESOLVER_OK and RESOLVER_ERROR
abbrev pub answer_type : ℕ → ℕ
answer_type code = if code == 0 then 0 else 1

-- `resolver_async` at `REACTOR_RETURN`: the resolver and what the user is called with. The addresses
-- are freed behind the call.
unfoldable pub resolver_async_return : Resolver → Resolver × Event
unfolding reactor_event_define
resolver_async_return r = (
  record r { call = 0; host = none; port = none; result = 0 },
  reactor_event_define r.user.state (answer_type r.code) r.result,
)
