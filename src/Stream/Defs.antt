-- ===== src/Stream/Defs.antt =====
-- src/reactor/stream.c: the state of a stream.
use libreactor_refactor.Prelude.{ℕ, Bool, Option, none, some, if◌then◌else◌}
use libreactor_refactor.Buffer.{Buffer, buffer_construct}
use libreactor_refactor.Reactor.State.{Callback, User, reactor_user_define}

pub data StreamType : Type 0 where
  undefined : StreamType
  file : StreamType
  socket : StreamType

-- `if (stream->type == STREAM_TYPE_SOCKET) … else …`
abbrev pub on_socket_else : {A : Type 0} → StreamType → A → A → A
on_socket_else StreamType.socket x y = x
on_socket_else StreamType.undefined x y = y
on_socket_else StreamType.file x y = y

-- The events of the user, with what they report. `read` has the place and the size of the new
-- bytes in the input buffer.
pub data StreamEvent : Type 0 where
  error : ℕ → StreamEvent
  close : StreamEvent
  read : ℕ → ℕ → StreamEvent
  flushed : StreamEvent

-- The result of an operation of the kernel: a count, or minus an error number.
pub data Result : Type 0 where
  count : ℕ → Result
  failed : ℕ → Result

pub record Input : Type 0 where
  pub bytes : Buffer
  pub offset : ℕ
  pub id : ℕ

pub record Output : Type 0 where
  pub bytes : Buffer
  pub next : Buffer
  pub offset : ℕ
  pub partial_write : ℕ
  pub id : ℕ

-- `struct stream`; `fd` is the bits of an `int`, so that -1 is 2 ^ 32 - 1.
pub record Stream : Type 0 where
  pub user : User
  pub fd : ℕ
  pub kind : StreamType
  pub input : Input
  pub output : Output

abbrev pub minus_one : ℕ
minus_one = 0xFFFF_FFFF

unfoldable pub stream_construct : Callback → ℕ → Stream
unfolding reactor_user_define buffer_construct
stream_construct callback state = record {
  user = reactor_user_define callback state;
  fd = minus_one;
  kind = StreamType.undefined;
  input = record { bytes = buffer_construct; offset = 0; id = 0 };
  output = record {
    bytes = buffer_construct;
    next = buffer_construct;
    offset = 0;
    partial_write = 0;
    id = 0;
  };
}

-- `is_socket` is what `fstat` finds out, or `none` where it fails.
unfoldable pub stream_open : Option Bool → Stream → ℕ → StreamType → Option Stream
stream_open is_socket s fd StreamType.undefined = elim is_socket [
  | none ↦ none
  | some found ↦
      some (record s { fd = fd; kind = if found then StreamType.socket else StreamType.file })
]
stream_open is_socket s fd StreamType.file = some (record s { fd = fd; kind = StreamType.file })
stream_open is_socket s fd StreamType.socket = some (record s { fd = fd; kind = StreamType.socket })

unfoldable pub stream_fd : Stream → ℕ
stream_fd s = s.fd
