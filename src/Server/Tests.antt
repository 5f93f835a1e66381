-- ===== src/Server/Tests.antt =====
-- Tests and concrete cases for src/reactor/server.c.
use libreactor_refactor.Prelude.{
  ℕ, ltb, false, some, none, List, [], ◌++◌, length, drop, codes, if◌then◌else◌, ◌≡◌, refl,
}
use libreactor_refactor.Memory.{Memory}
use libreactor_refactor.Buffer.{Buffer}
use libreactor_refactor.Reactor.State.{Callback, Reactor}
use libreactor_refactor.Stream.{StreamType}
use libreactor_refactor.Http.{cells, Parsed, Parser, ReadRequest, Region, bytes_of, incomplete}
use libreactor_refactor.Server.Date.{date_at}
use libreactor_refactor.Server.Session.{Session}
use libreactor_refactor.Server.Pipeline.{Reply}

-- 784111777 seconds and the last second of February of a leap year; half a second before the next
-- second is not rounded up, a hundredth is.
date_of_1994 :
    date_at 784_111_777_000_000_000 ≡ some (cells (codes "Sun, 06 Nov 1994 08:49:37 GMT"))
unfolding date_at
date_of_1994 = refl

date_of_2024 :
    date_at 1_709_251_199_500_000_000 ≡ some (cells (codes "Thu, 29 Feb 2024 23:59:59 GMT"))
unfolding date_at
date_of_2024 = refl

date_rounded :
    date_at 1_709_251_199_990_000_000 ≡ some (cells (codes "Fri, 01 Mar 2024 00:00:00 GMT"))
unfolding date_at
date_rounded = refl

abbrev address : Buffer → ℕ
address b = 65536

abbrev get : List ℕ
get = codes "GET / HTTP/1.0\r\n\r\n"

-- All requests are these 18 bytes.
abbrev gets : Parser
gets m fields_count = record {
  result = if ltb (length m) 18 then incomplete else 18;
  method = record { start = 0; size = 3 };
  target = record { start = 4; size = 1 };
  fields = [];
  fields_count = 0;
}

abbrev no_bytes : Buffer
no_bytes = record { base = []; size = 0; capacity = 0 }

-- Two requests and the start of a third.
abbrev two_gets : Buffer
two_gets = record { base = cells (get ++ (get ++ codes "GE")); size = 38; capacity = 38 }

abbrev session : Session
session = record {
  stream = record {
    user = record { callback = Callback.client 8; state = 0 };
    fd = 5;
    kind = StreamType.socket;
    input = record { bytes = two_gets; offset = 0; id = 0 };
    output = record { bytes = no_bytes; next = no_bytes; offset = 0; partial_write = 0; id = 0 };
  };
  stream_offset = 0;
  abort = false;
  in_progress = false;
  request = none;
}

abbrev ok : Reply
ok request = (cells (codes "200 OK"), [], cells (codes "hi"))

abbrev day : Memory
day = cells (codes "Sun, 06 Nov 1994 08:49:37 GMT")

-- What is read from an offset on.
abbrev from : ℕ → ℕ → ReadRequest
from o result =
    let m = drop o (get ++ (get ++ codes "GE")) in
    record { result = result; parsed = gets m 16; memory = m; body = none }
