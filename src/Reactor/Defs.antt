-- ===== src/Reactor/Defs.antt =====
-- The two rings of src/reactor/reactor.c (`reactor_ring`), which the program shares with the kernel.
-- A pointer to an entry is its index. `none` is a failed `assert`, or a run that leaves an array.
use libreactor_refactor.Prelude.{
  ◌>>=◌, ℕ, Bool, Option, none, some, List, get_elem?, set, bit_and, ◌==◌, if◌then◌else◌,
}
use libreactor_refactor.Words.{add32, sub32}

pub data Opcode : Type 0 where
  nop : Opcode
  readv : Opcode
  writev : Opcode
  fsync : Opcode
  poll_add : Opcode
  poll_remove : Opcode
  epoll_ctl : Opcode
  sync_file_range : Opcode
  sendmsg : Opcode
  recvmsg : Opcode
  send : Opcode
  recv : Opcode
  timeout : Opcode
  accept : Opcode
  read : Opcode
  write : Opcode
  connect : Opcode
  fallocate : Opcode
  close : Opcode
  async_cancel : Opcode
  send_zc : Opcode

-- The fields of `struct io_uring_sqe` that the source sets. `op_flags` is the union of the flags.
pub record Sqe : Type 0 where
  pub opcode : Opcode
  pub fd : ℕ
  pub off : ℕ
  pub addr : ℕ
  pub len : ℕ
  pub op_flags : ℕ
  pub user_data : ℕ

-- `struct io_uring_cqe`; `res` is an `int`, by its bits; `notif` and `more` are the flags IORING_CQE_F_NOTIF and IORING_CQE_F_MORE.
pub record Cqe : Type 0 where
  pub user_data : ℕ
  pub res : ℕ
  pub notif : Bool
  pub more : Bool

pub record Ring : Type 0 where
  pub size : ℕ
  pub sqe : List Sqe
  pub sq_mask : ℕ
  pub sq_head : ℕ
  pub sq_tail : ℕ
  pub sq_array : List ℕ
  pub cqe : List Cqe
  pub cq_mask : ℕ
  pub cq_head : ℕ
  pub cq_tail : ℕ

-- What `io_uring_enter` does to the shared rings, and the number that it returns.
abbrev pub Enter : Type 0
Enter = ℕ → Ring → Ring × ℕ

unfoldable pub to_submit : Ring → ℕ
unfolding sub32
to_submit r = sub32 r.sq_tail r.sq_head

-- The call of `io_uring_enter`, and its `assert`.
unfoldable pub entered : Enter → Ring → Option Ring
unfolding to_submit
entered enter r =
    let (next, n) = enter (to_submit r) r in if n == to_submit r then some next else none

unfoldable pub reactor_ring_flush : Enter → Ring → Option Ring
unfolding to_submit entered
reactor_ring_flush enter r = if to_submit r == r.size then entered enter r else some r

-- The entry at the tail.
unfoldable pub claim : Ring → Ring × ℕ
unfolding add32
claim r =
    let i = bit_and r.sq_tail r.sq_mask in
    (record r { sq_tail = add32 r.sq_tail 1; sq_array = set r.sq_array i i }, i)

unfoldable pub reactor_ring_sqe : Enter → Ring → Option (Ring × ℕ)
unfolding reactor_ring_flush claim
reactor_ring_sqe enter r = do flushed ← reactor_ring_flush enter r; some (claim flushed)

-- `*reactor_ring_sqe(ring) = entry`
unfoldable pub submit : Enter → Ring → Sqe → Option Ring
unfolding reactor_ring_sqe
submit enter r entry = do
  (next, i) ← reactor_ring_sqe enter r
  some (record next { sqe = set next.sqe i entry })

unfoldable pub reactor_ring_cqe : Ring → Option (Ring × Option Cqe)
unfolding add32
reactor_ring_cqe r = if r.cq_head == r.cq_tail then some (r, none) else do
  cqe ← get_elem? r.cqe (bit_and r.cq_head r.cq_mask)
  some (record r { cq_head = add32 r.cq_head 1 }, some cqe)

unfoldable pub reactor_ring_update : Enter → Ring → Option Ring
unfolding entered
reactor_ring_update = entered
