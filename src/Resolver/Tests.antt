-- ===== src/Resolver/Tests.antt =====
-- Tests of src/reactor/resolver.c.
use libreactor_refactor.Prelude.{◌>>=◌, ℕ, Bool, true, Option, none, some, codes, ◌==◌, ◌≡◌, refl}
use libreactor_refactor.Reactor.State.{Callback}
use libreactor_refactor.Resolver.Defs.{
  Hints, Lookup, resolver_construct, resolver_lookup, resolver_async_call, resolver_async_return,
}

abbrev any_address : Hints
any_address = record { flags = 0; family = 0; socktype = 1; protocol = 0 }

-- The whole of a look-up: the type and the value of the event, and whether the next one may start.
abbrev looked_up : Lookup → Option (ℕ × ℕ × Bool)
looked_up getaddrinfo = do
  r ←
      resolver_lookup 65 (resolver_construct (Callback.client 8) 7) any_address (codes "localhost")
        (codes "http")
  s ← resolver_async_call getaddrinfo r
  let (t, event) = resolver_async_return s
  some (event.type, event.value, t.call == 0)

found : looked_up (λ host port hints. (0, some 4096)) ≡ some (0, 4096, true)
unfolding resolver_lookup resolver_async_call resolver_async_return resolver_construct
found = refl

not_found : looked_up (λ host port hints. (4294967294, none)) ≡ some (1, 0, true)
unfolding resolver_lookup resolver_async_call resolver_async_return resolver_construct
not_found = refl
