-- ===== src/Stream/Tests.antt =====
-- Streams at concrete reactors.
use libreactor_refactor.Prelude.{◌>>=◌, ℕ, ◌≡◌, refl, Option, some, none, [], ◌∷◌, arith, inl, inr}
use libreactor_refactor.Words.{fill_below}
use libreactor_refactor.Memory.{Memory, realloc}
use libreactor_refactor.Buffer.{Buffer, buffer_data}
use libreactor_refactor.Buffer.Laws.{IsValid}
use libreactor_refactor.Pool.{pool_construct}
use libreactor_refactor.Pool.Tests.{chunk}
use libreactor_refactor.Reactor.State.{Callback}
use libreactor_refactor.Reactor.Ready.{IsReady, Surroundings}
use libreactor_refactor.Reactor.Tests.{reactor, ring-Holds, enter, enter-Takes}
use libreactor_refactor.Stream.Defs.{Stream, StreamType}
use libreactor_refactor.Stream.Output.{stream_flushed}
use libreactor_refactor.Reactor.Ring.{newest}
use libreactor_refactor.Stream.Named.{named}
use libreactor_refactor.Stream.Run.{Action, World, asked, step, IsFlowing}
use libreactor_refactor.Stream.Steps.{step-IsFlowing}
use libreactor_refactor.Stream.Reach.{Reaches, Reaches-sent}

abbrev address : Buffer → ℕ
address b = 65536

pub around : Surroundings chunk enter
around = record { takes = enter-Takes; placed = λ n e. absurd (omega (arith, e)) }

pub reactor-IsReady : IsReady reactor
unfolding pool_construct
reactor-IsReady = record { waiting = []; ring = ring-Holds; free = tt }

abbrev no_bytes : Buffer
no_bytes = record { base = []; size = 0; capacity = 0 }

no_bytes-IsValid : IsValid no_bytes
no_bytes-IsValid = record { full = refl; fits = omega arith; small = omega arith }

-- A socket, and a file, with nothing written.
abbrev new_stream : StreamType → Stream
new_stream kind = record {
  user = record { callback = Callback.client 8; state = 0 };
  fd = 5;
  kind = kind;
  input = record { bytes = no_bytes; offset = 0; id = 0 };
  output = record { bytes = no_bytes; next = no_bytes; offset = 0; partial_write = 0; id = 0 };
}

abbrev start : World
start = record {
  stream = new_stream StreamType.socket;
  reactor = reactor;
  request = none;
  sent = [];
  written = [];
}

start-IsFlowing : IsFlowing chunk enter address 1 2 around start
unfolding buffer_data
start-IsFlowing = record {
  flows = record {
    kind = refl;
    ready = reactor-IsReady;
    bytes_valid = no_bytes-IsValid;
    next_valid = no_bytes-IsValid;
    gone = [];
    rest = [];
    bytes = refl;
    partial = refl;
    order = refl;
    state = inr (refl, refl, refl);
  };
  pending = inl refl;
}

abbrev abc : Memory
abc = some 97 ∷ some 98 ∷ some 99 ∷ []

step-IsFlowing_example :
    (v : World) × (step chunk enter address 1 2 (Action.write abc) start ≡ some v)
    × IsFlowing chunk enter address 1 2 around v
step-IsFlowing_example =
    step-IsFlowing chunk enter address 1 2 around (Action.write abc) start start-IsFlowing
      (omega arith)

abbrev after : Action → World → World
after a w = elim (step chunk enter address 1 2 a w) [ none ↦ w | some v ↦ v ]

abbrev written_abc : World
written_abc = after (Action.write abc) start

abbrev flushed_abc : World
flushed_abc = after Action.flush written_abc

abbrev taken_abc : World
taken_abc = after (Action.taken 3) flushed_abc

-- Three bytes are written and flushed, and the kernel takes them.
start-Reaches : Reaches chunk enter address 1 2 start taken_abc
unfolding step newest named buffer_data fill_below realloc pool_construct
start-Reaches = Reaches.after (Action.write abc) (omega arith) refl (
    Reaches.after Action.flush tt refl (
      Reaches.after (Action.taken 3) ((λ e. absurd (omega (arith, e))), omega arith, omega arith)
        refl Reaches.here))

Reaches-sent_example : taken_abc.sent ≡ taken_abc.written
Reaches-sent_example =
    Reaches-sent chunk enter address 1 2 around start taken_abc start-IsFlowing start-Reaches (
      unfold step stream_flushed newest named buffer_data fill_below realloc pool_construct in refl)

-- Three bytes are written and flushed, and the kernel takes two: what it is then asked for.
abbrev after_two : StreamType → Option (Memory × Memory × ℕ)
after_two kind = do
  w ← step chunk enter address 1 2 (Action.write abc) (record start { stream = new_stream kind })
  v ← step chunk enter address 1 2 Action.flush w
  u ← step chunk enter address 1 2 (Action.taken 2) v
  some (u.sent, asked address u, u.stream.output.offset)

-- A socket goes on behind the two.
socket_goes_on : after_two StreamType.socket ≡ some (some 97 ∷ some 98 ∷ [], some 99 ∷ [], 0)
unfolding step newest named buffer_data realloc fill_below pool_construct
socket_goes_on = refl

-- A file is sent again from its start, for the place where it was already written.
file_starts_again : after_two StreamType.file ≡ some (some 97 ∷ some 98 ∷ [], abc, 0)
unfolding step newest named buffer_data realloc fill_below pool_construct
file_starts_again = refl
