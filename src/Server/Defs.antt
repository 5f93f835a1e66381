-- ===== src/Server/Defs.antt =====
-- src/reactor/server.c: the server. Its sessions are objects of a list on a heap; what an object holds
-- is in `sessions`, by its address.
use libreactor_refactor.Prelude.{
  ◌>>=◌, ℕ, zero, suc, ◌+◌, ◌*◌, ◌/◌, ◌^◌, false, Option, none, some, [], ltb, ◌==◌, if◌then◌else◌,
}
use libreactor_refactor.Memory.{Memory}
use libreactor_refactor.Buffer.{Buffer}
use libreactor_refactor.Reactor.{Enter}
use libreactor_refactor.Reactor.State.{Callback, User, Reactor, reactor_user_define, reactor_cancel}
use libreactor_refactor.Reactor.Loop.{reactor_now}
use libreactor_refactor.Reactor.Files.{reactor_close}
use libreactor_refactor.Reactor.Sockets.{reactor_accept}
use libreactor_refactor.Timer.{Timer, timer_construct, timer_set, timer_clear, timer_destruct}
use libreactor_refactor.Stream.{StreamType, stream_construct, stream_open, minus_one}
use libreactor_refactor.List.{
  Heap, list_construct, list_push_back, list_front, list_empty, list_erase, list_clear,
}
use libreactor_refactor.Server.Date.{date_at}
use libreactor_refactor.Server.Session.{Session, server_read, server_disconnect}

-- `requests` is the address of the list; `fd` is the bits of an `int`.
pub record Server : Type 0 where
  pub user : User
  pub fd : ℕ
  pub accept : ℕ
  pub requests : ℕ
  pub timer : Timer
  pub date : Memory

pub record World : Type 0 where
  pub server : Server
  pub heap : Heap
  pub sessions : ℕ → Option Session
  pub reactor : Reactor

unfoldable pub set_session : World → ℕ → Option Session → World
set_session w object session = record w {
  sessions = λ q. if q == object then session else w.sessions q;
}

-- `now` is what `reactor_now` returns.
unfoldable pub server_date_update : ℕ → World → Option World
unfolding date_at
server_date_update now w = do
  date ← date_at now
  some (record w { server = record w.server { date = date } })

unfoldable pub server_timer_callback : ℕ → World → Option World
unfolding server_date_update
server_timer_callback = server_date_update

-- `requests` is the address of the list in the server, `timer_callback` that of
-- `server_timer_callback`, and `self` that of the server.
unfoldable pub server_construct : ℕ → ℕ → ℕ → Callback → ℕ → Heap → Server × Heap
unfolding reactor_user_define timer_construct list_construct
server_construct self requests timer_callback callback state h = (
  record {
    user = reactor_user_define callback state;
    fd = minus_one;
    accept = 0;
    requests = requests;
    timer = timer_construct (Callback.client timer_callback) self;
    date = [];
  },
  list_construct h requests,
)

-- The offset of the stream in a session.
abbrev pub stream_place : ℕ
stream_place = 16

-- `self` is the address of the server, `timer_self`, `handler` and `tv` are those of its timer, and
-- `session_size` is the size of a session. `accept_callback` and `stream_callback` are the addresses of
-- the functions of their names, and the last three are those of the streams.
module _ (chunk : ℕ → ℕ) (enter : Enter) (address : Buffer → ℕ)
    (self timer_self handler tv session_size accept_callback stream_callback : ℕ)
    (send_callback recv_callback release_buffer : ℕ) where
  unfoldable pub server_accept_next : World → Option World
  unfolding reactor_accept
  server_accept_next w =
      let asked = (do
        (r, id) ←
            reactor_accept chunk enter (Callback.client accept_callback) self w.server.fd 0 0 0
              w.reactor
        some (record w { server = record w.server { accept = id }; reactor = r })) in
      if w.server.accept == 0 then asked else none

  -- `p` is the address that the new item of the list gets.
  unfoldable pub server_accept : ℕ → World → ℕ → Option World
  unfolding list_push_back stream_construct stream_open server_read set_session
  server_accept p w fd =
      let accepted = (do
        (h, object) ← list_push_back w.heap p w.server.requests none session_size
        stream ←
            stream_open none (stream_construct (Callback.client stream_callback) object) fd
              StreamType.socket
        let new : Session = record {
          stream = stream;
          stream_offset = 0;
          abort = false;
          in_progress = false;
          request = none;
        }
        (s, r) ←
            server_read chunk enter address (object + stream_place) send_callback recv_callback
              release_buffer new w.reactor
        some (set_session (record w { heap = h; reactor = r }) object (some s))) in
      if ltb fd (2 ^ 31) then accepted else some w

  -- `fd` is the result of the kernel.
  unfoldable pub server_accept_callback : ℕ → World → ℕ → Option World
  unfolding server_accept server_accept_next
  server_accept_callback p w fd = do
    v ← server_accept p (record w { server = record w.server { accept = 0 } }) fd
    server_accept_next v

  -- The end of the session that is the object.
  unfoldable pub disconnect : World → ℕ → Option World
  unfolding server_disconnect list_erase set_session
  disconnect w object = do
    s ← w.sessions object
    (gone, r) ←
        server_disconnect chunk enter address (object + stream_place) send_callback recv_callback
          release_buffer s w.reactor
    (h, released) ← list_erase w.heap object false
    some (set_session (record w { heap = h; reactor = r }) object gone)

  -- Of so many rounds.
  unfoldable pub disconnect_all : ℕ → World → Option World
  unfolding disconnect list_empty list_front
  disconnect_all zero w = none
  disconnect_all (suc fuel) w = do
    empty ← list_empty w.heap w.server.requests
    let rest = (do
      object ← list_front w.heap w.server.requests
      v ← disconnect w object
      disconnect_all fuel v)
    if empty then some w else rest

  unfoldable pub server_close : ℕ → World → Option World
  unfolding reactor_cancel reactor_close disconnect_all timer_clear
  server_close fuel w =
      let closed = (do
        r ← reactor_cancel chunk enter w.server.accept Callback.null 0 w.reactor
        (q, id) ← reactor_close chunk enter Callback.null 0 w.server.fd r
        v ←
            disconnect_all fuel
              (record w { server = record w.server { accept = 0; fd = minus_one }; reactor = q })
        (timer, p) ← timer_clear chunk enter handler timer_self tv v.server.timer v.reactor
        some (record v { server = record v.server { timer = timer }; reactor = p })) in
      if w.server.fd == minus_one then some w else if w.server.accept == 0 then none else closed

  unfoldable pub server_destruct : ℕ → World → Option World
  unfolding server_close timer_destruct list_clear
  server_destruct fuel w = do
    v ← server_close fuel w
    (timer, r) ← timer_destruct chunk enter handler timer_self tv v.server.timer v.reactor
    (h, released) ← list_clear fuel v.heap v.server.requests false
    some (record v { server = record v.server { timer = timer }; heap = h; reactor = r })

  -- `seconds` and `nanoseconds` are what the clock shows.
  unfoldable pub server_open : ℕ → ℕ → World → ℕ → Option World
  unfolding reactor_now timer_set server_date_update server_accept_next
  server_open seconds nanoseconds w fd = do
    let (r, now) = reactor_now seconds nanoseconds w.reactor
    (timer, q) ←
        timer_set chunk enter handler timer_self tv w.server.timer
          (now / 1_000_000_000 * 1_000_000_000) 1_000_000_000 r
    v ←
        server_date_update now
          (record w { server = record w.server { fd = fd; timer = timer }; reactor = q })
    server_accept_next v
