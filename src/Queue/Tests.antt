-- ===== src/Queue/Tests.antt =====
-- Tests and concrete cases for src/reactor/queue.c.
use libreactor_refactor.Prelude.{
  ◌>>=◌, ℕ, false, Option, none, some, [], ◌∷◌, ◌≡◌, refl, arith, inl, inr, ◌==◌, if◌then◌else◌,
}
use libreactor_refactor.Words.{fill_below}
use libreactor_refactor.Memory.{Memory, realloc, store}
use libreactor_refactor.Buffer.{Buffer, buffer_data}
use libreactor_refactor.Buffer.Laws.{IsValid}
use libreactor_refactor.Pool.{pool_construct}
use libreactor_refactor.Pool.Tests.{chunk}
use libreactor_refactor.Reactor.Ring.{newest}
use libreactor_refactor.Stream.Named.{named}
use libreactor_refactor.Reactor.State.{Callback}
use libreactor_refactor.Reactor.Tests.{reactor, enter}
use libreactor_refactor.Stream.{Result}
use libreactor_refactor.Stream.Tests.{around, reactor-IsReady}
use libreactor_refactor.Queue.Producer.{Queue, batch}
use libreactor_refactor.Queue.Consumer.{Consumer, Pop, queue_consumer_update, queue_consumer_read}
use libreactor_refactor.Queue.Run.{Action, World, asked, turn, IsFlowing}
use libreactor_refactor.Queue.Steps.{turn-IsFlowing}
use libreactor_refactor.Queue.Pops.{KeepsQueue, pop_each, queue_consumer_read-each}

abbrev address : Buffer → ℕ
address b = 65536

abbrev pairs : Queue
pairs = record { input = 5; output = 6; element_size = 2 }

abbrev start : World
start = record {
  producer = record {
    queue = some pairs;
    output = record { base = []; size = 0; capacity = 0 };
    output_offset = 0;
    output_queued = record { base = []; size = 0; capacity = 0 };
    write = 0;
  };
  reactor = reactor;
  request = none;
  sent = [];
  pushed = [];
}

no_bytes-IsValid : IsValid (record { base = []; size = 0; capacity = 0 })
no_bytes-IsValid = record { full = refl; fits = omega arith; small = omega arith }

start-IsFlowing :
    IsFlowing chunk enter address 1 2 3 pairs around (omega arith) (λ e. omega (arith, e)) start
unfolding buffer_data
start-IsFlowing = record {
  flows = record {
    holds = record {
      opened = refl;
      ready = reactor-IsReady;
      output_valid = no_bytes-IsValid;
      queued_valid = no_bytes-IsValid;
      gone = [];
      rest = [];
      bytes = refl;
      offset = refl;
      order = refl;
    };
    state = inr (refl, refl);
  };
  pending = inl refl;
}

abbrev ab : Memory
ab = some 97 ∷ some 98 ∷ []

abbrev cd : Memory
cd = some 99 ∷ some 100 ∷ []

turn-IsFlowing_example :
    (v : World) × (turn chunk enter address 1 2 3 (Action.push ab) start ≡ some v)
    × IsFlowing chunk enter address 1 2 3 pairs around (omega arith) (λ e. omega (arith, e)) v
turn-IsFlowing_example =
    turn-IsFlowing chunk enter address 1 2 3 pairs around (omega arith) (λ e. omega (arith, e))
      (Action.push ab) start start-IsFlowing (refl, omega arith)

-- An element is on its way, two wait, and the kernel takes the first.
abbrev in_turn : Option (Memory × Memory × ℕ)
in_turn = do
  u ← turn chunk enter address 1 2 3 (Action.push ab) start
  v ← turn chunk enter address 1 2 3 (Action.push cd) u
  w ← turn chunk enter address 1 2 3 (Action.push ab) v
  x ← turn chunk enter address 1 2 3 (Action.taken 2) w
  some (x.sent, asked address x, batch pairs x.producer)

two_in_turn : in_turn ≡ some (ab, some 99 ∷ some 100 ∷ some 97 ∷ some 98 ∷ [], 4)
unfolding turn newest named buffer_data fill_below realloc batch store pool_construct
two_in_turn = refl

-- The user notes the offsets, in the place of a descriptor, and closes the consumer at the third.
abbrev noted : Pop
noted o c r = some (c, record r { next = o ∷ r.next }, o == 4)

abbrev reader : Consumer
reader = record {
  user = record { callback = Callback.client 8; state = 0 };
  queue = some pairs;
  input = record { base = []; size = 0; capacity = 0 };
  read = 7;
  abort = false;
}

closed_at_third :
    (queue_consumer_read chunk enter address 1 2 3 noted reader reactor (Result.count 8)
      >>= λ (c, r). some r.next)
    ≡ some (4 ∷ 2 ∷ 0 ∷ [])
unfolding queue_consumer_read
closed_at_third = refl

noted-KeepsQueue : KeepsQueue pairs noted
noted-KeepsQueue o c d r q opened ran = cc

queue_consumer_read-each_example :
    queue_consumer_read chunk enter address 1 2 3 noted reader reactor (Result.count 8) ≡ (do
      (d, q, aborted) ← pop_each noted (0 ∷ 2 ∷ 4 ∷ 6 ∷ []) (record reader { read = 0 }) reactor
      let updated = queue_consumer_update chunk enter address 1 2 3 d q
      if aborted then some (d, q) else updated)
queue_consumer_read-each_example =
    queue_consumer_read-each pairs (λ e. omega (arith, e)) noted noted-KeepsQueue chunk enter
      address 1 2 3 4 reader reactor (omega arith) refl
