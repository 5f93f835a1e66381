-- ===== src/Reactor/Operation.antt =====
-- The operations that the entries of src/reactor/reactor.c ask for, as io_uring documents its entries.
use libreactor_refactor.Prelude.{ℕ, ◌%◌, Bool, Option, none, some, ◌==◌, bit_and, if◌then◌else◌}
use libreactor_refactor.Words.{word32}
use libreactor_refactor.Reactor.Defs.{Opcode, Sqe}

-- The system calls, with the arguments that they get, in their order.
pub data Operation : Type 0 where
  nop : Operation
  fsync : (fd : ℕ) → Operation
  close : (fd : ℕ) → Operation
  readv : (fd iov iovcnt offset : ℕ) → Operation
  writev : (fd iov iovcnt offset : ℕ) → Operation
  read : (fd base size offset : ℕ) → Operation
  write : (fd base size offset : ℕ) → Operation
  sync_file_range : (fd offset size flags : ℕ) → Operation
  fallocate : (fd mode offset size : ℕ) → Operation
  timeout : (time count flags : ℕ) → Operation
  poll : (fd events : ℕ) (multi : Bool) → Operation
  poll_change : (id events : ℕ) → Operation
  poll_end : (id : ℕ) → Operation
  epoll_ctl : (epoll_fd op fd event : ℕ) → Operation
  sendmsg : (socket message flags : ℕ) → Operation
  recvmsg : (socket message flags : ℕ) → Operation
  send : (socket base size flags : ℕ) → Operation
  recv : (socket base size flags : ℕ) → Operation
  send_zc : (socket base size flags : ℕ) → Operation
  accept : (socket addr addrlen flags : ℕ) → Operation
  connect : (socket addr addrlen : ℕ) → Operation
  cancel : (id : ℕ) → Operation

-- What an entry asks for; `none` is an entry that is refused. A timeout has one time. The lowest bit of
-- the length of a poll is for more than one completion; the bit 2 of the length of a removal is for
-- new events. A count, or the descriptor of `epoll_ctl`, is the low half of the offset.
unfoldable pub operation : Sqe → Option Operation
operation e = elim e.opcode [
  | Opcode.nop ↦ some Operation.nop
  | Opcode.readv ↦ some (Operation.readv e.fd e.addr e.len e.off)
  | Opcode.writev ↦ some (Operation.writev e.fd e.addr e.len e.off)
  | Opcode.fsync ↦ some (Operation.fsync e.fd)
  | Opcode.poll_add ↦ some (Operation.poll e.fd e.op_flags (bit_and e.len 1 == 1))
  | Opcode.poll_remove ↦
      if bit_and e.len 2 == 2
      then some (Operation.poll_change e.addr e.op_flags)
      else some (Operation.poll_end e.addr)
  | Opcode.epoll_ctl ↦ some (Operation.epoll_ctl e.fd e.len (e.off % word32) e.addr)
  | Opcode.sync_file_range ↦ some (Operation.sync_file_range e.fd e.off e.len e.op_flags)
  | Opcode.sendmsg ↦ some (Operation.sendmsg e.fd e.addr e.op_flags)
  | Opcode.recvmsg ↦ some (Operation.recvmsg e.fd e.addr e.op_flags)
  | Opcode.send ↦ some (Operation.send e.fd e.addr e.len e.op_flags)
  | Opcode.recv ↦ some (Operation.recv e.fd e.addr e.len e.op_flags)
  | Opcode.timeout ↦
      if e.len == 1 then some (Operation.timeout e.addr (e.off % word32) e.op_flags) else none
  | Opcode.accept ↦ some (Operation.accept e.fd e.addr e.off e.op_flags)
  | Opcode.read ↦ some (Operation.read e.fd e.addr e.len e.off)
  | Opcode.write ↦ some (Operation.write e.fd e.addr e.len e.off)
  | Opcode.connect ↦ some (Operation.connect e.fd e.addr e.off)
  | Opcode.fallocate ↦ some (Operation.fallocate e.fd e.len e.off e.addr)
  | Opcode.close ↦ some (Operation.close e.fd)
  | Opcode.async_cancel ↦ some (Operation.cancel e.addr)
  | Opcode.send_zc ↦ some (Operation.send_zc e.fd e.addr e.len e.op_flags)
]
