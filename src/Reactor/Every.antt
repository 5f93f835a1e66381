-- ===== src/Reactor/Every.antt =====
-- Every request of src/reactor/reactor.c: the operation that it asks the kernel for.
use libreactor_refactor.Prelude.{
  ℕ, ◌+◌, ◌%◌, ◌^◌, ◌<◌, true, false, Option, some, List, length, ◌≡◌, refl, ap, ◌∙◌, arith,
}
use mathlib.Core.List.{Nodup}
use libreactor_refactor.Words.{word, word32}
use libreactor_refactor.Pool.{refill}
use libreactor_refactor.Pool.Laws.{objects}
use libreactor_refactor.Reactor.Defs.{Opcode, Sqe, Enter}
use libreactor_refactor.Reactor.Operation.{Operation, operation}
use libreactor_refactor.Reactor.Ring.{Takes}
use libreactor_refactor.Reactor.State.{
  Callback, Reactor, request, sign_extend, reactor_async_cancel,
}
use libreactor_refactor.Reactor.Files.{
  reactor_nop, reactor_readv, reactor_writev, reactor_fsync, reactor_sync_file_range,
  reactor_timeout, reactor_read, reactor_write, reactor_fallocate, reactor_close,
}
use libreactor_refactor.Reactor.Sockets.{
  reactor_poll_add, reactor_poll_add_multi, reactor_poll_update, reactor_poll_remove,
  reactor_epoll_ctl, reactor_sendmsg, reactor_recvmsg, reactor_send, reactor_recv, reactor_accept,
  reactor_connect, reactor_send_zerocopy,
}
use libreactor_refactor.Reactor.Queued.{Waits, Queues, request-queued}

whole_size : (n : ℕ) → n < 2 ^ 32 → n % word32 ≡ n
whole_size n small = omega (arith, small)

whole_int : (n : ℕ) → n < 2 ^ 32 → sign_extend n % word32 ≡ n
unfolding sign_extend
whole_int n small = ground (arith, small)

-- The run queues one entry for a fresh user with the callback and the state, and returns the user's
-- id; the entry asks the kernel for the operation.
pub record Asks (chunk : ℕ → ℕ) (r : Reactor) (used : List ℕ) (es : List Sqe) (callback : Callback)
    (state : ℕ) (run : Option (Reactor × ℕ)) (asked : Operation) : Type 0 where
  pub op : Opcode
  pub queues : Queues chunk r used es op callback state run
  pub asks : operation queues.entry ≡ some asked

module _ (chunk : ℕ → ℕ) (enter : Enter) (r : Reactor) (used : List ℕ) (es : List Sqe)
    (takes : Takes enter) (waits : Waits chunk r used es) (small : length used + 1 < word)
    (apart : Nodup (objects chunk r.users.size (refill chunk r.users).chunks)) where
  one :
      (callback : Callback) (state : ℕ) (op : Opcode) (entry : ℕ → Sqe) (asked : Operation)
      → ((user : ℕ) → (entry user).opcode ≡ op)
      → ((user : ℕ) → (entry user).user_data ≡ user)
      → ((user : ℕ) → operation (entry user) ≡ some asked)
      → Asks chunk r used es callback state (request chunk enter callback state entry r) asked
  one callback state op entry asked opcode names asks =
      let (q, same) =
        request-queued chunk enter r used es takes waits small apart op callback state entry opcode
          names in
      record { op = op; queues = q; asks = ap operation same ∙ asks q.id }

  -- Each request on files and timeouts, with a size or a count of 32 bits, queues one entry for a fresh
  -- user with the callback and the state, and returns the id of that user; and the entry asks the
  -- kernel for the operation on the descriptor, with the arguments of the request.
  pub file_requests-Ask :
      (callback : Callback) (state fd base size offset mode flags : ℕ)
      → size < 2 ^ 32
      → let Does = Asks chunk r used es callback state in
        Does (reactor_nop chunk enter callback state r) Operation.nop
        × Does
            (reactor_readv chunk enter callback state fd base size offset r)
            (Operation.readv fd base size offset)
        × Does
            (reactor_writev chunk enter callback state fd base size offset r)
            (Operation.writev fd base size offset)
        × Does (reactor_fsync chunk enter callback state fd r) (Operation.fsync fd)
        × Does
            (reactor_sync_file_range chunk enter callback state fd offset size flags r)
            (Operation.sync_file_range fd offset size flags)
        × Does
            (reactor_timeout chunk enter callback state base size flags r)
            (Operation.timeout base size flags)
        × Does
            (reactor_read chunk enter callback state fd base size offset r)
            (Operation.read fd base size offset)
        × Does
            (reactor_write chunk enter callback state fd base size offset r)
            (Operation.write fd base size offset)
        × Does
            (reactor_fallocate chunk enter callback state fd mode offset size r)
            (Operation.fallocate fd mode offset size)
        × Does (reactor_close chunk enter callback state fd r) (Operation.close fd)
  unfolding reactor_nop reactor_readv reactor_writev reactor_fsync reactor_sync_file_range
      reactor_timeout reactor_read reactor_write reactor_fallocate reactor_close operation
  file_requests-Ask callback state fd base size offset mode flags short =
      let cut = whole_size size short in
      let count = whole_int size short in
      (
        one callback state Opcode.nop _ _ (λ user. refl) (λ user. refl) (λ user. refl),
        one callback state Opcode.readv _ _ (λ user. refl) (λ user. refl) (λ user. refl),
        one callback state Opcode.writev _ _ (λ user. refl) (λ user. refl) (λ user. refl),
        one callback state Opcode.fsync _ _ (λ user. refl) (λ user. refl) (λ user. refl),
        one callback state Opcode.sync_file_range _ _ (λ user. refl) (λ user. refl)
            (λ user. ap (λ n. some (Operation.sync_file_range fd offset n flags)) cut),
        one callback state Opcode.timeout _ _ (λ user. refl) (λ user. refl)
            (λ user. ap (λ n. some (Operation.timeout base n flags)) count),
        one callback state Opcode.read _ _ (λ user. refl) (λ user. refl)
            (λ user. ap (λ n. some (Operation.read fd base n offset)) cut),
        one callback state Opcode.write _ _ (λ user. refl) (λ user. refl)
            (λ user. ap (λ n. some (Operation.write fd base n offset)) cut),
        one callback state Opcode.fallocate _ _ (λ user. refl) (λ user. refl) (λ user. refl),
        one callback state Opcode.close _ _ (λ user. refl) (λ user. refl) (λ user. refl),
      )

  -- Each request on sockets and polls, and `reactor_async_cancel`, with a size or a descriptor of 32
  -- bits, queues one entry for a fresh user with the callback and the state, and returns the id of
  -- that user; and the entry asks the kernel for the operation, with the arguments of the request.
  pub socket_requests-Ask :
      (callback : Callback) (state fd base size id events flags : ℕ)
      → size < 2 ^ 32
      → fd < 2 ^ 32
      → let Does = Asks chunk r used es callback state in
        Does
          (reactor_poll_add chunk enter callback state fd events r)
          (Operation.poll fd events false)
        × Does
            (reactor_poll_add_multi chunk enter callback state fd events r)
            (Operation.poll fd events true)
        × Does
            (reactor_poll_update chunk enter callback state id events r)
            (Operation.poll_change id events)
        × Does (reactor_poll_remove chunk enter callback state id r) (Operation.poll_end id)
        × Does
            (reactor_epoll_ctl chunk enter callback state id flags fd base r)
            (Operation.epoll_ctl id flags fd base)
        × Does
            (reactor_sendmsg chunk enter callback state fd base flags r)
            (Operation.sendmsg fd base flags)
        × Does
            (reactor_recvmsg chunk enter callback state fd base flags r)
            (Operation.recvmsg fd base flags)
        × Does
            (reactor_send chunk enter callback state fd base size flags r)
            (Operation.send fd base size flags)
        × Does
            (reactor_recv chunk enter callback state fd base size flags r)
            (Operation.recv fd base size flags)
        × Does
            (reactor_accept chunk enter callback state fd base size flags r)
            (Operation.accept fd base size flags)
        × Does
            (reactor_connect chunk enter callback state fd base size r)
            (Operation.connect fd base size)
        × Does
            (reactor_send_zerocopy chunk enter callback state fd base size flags r)
            (Operation.send_zc fd base size flags)
        × Does (reactor_async_cancel chunk enter callback state id r) (Operation.cancel id)
  unfolding reactor_poll_add reactor_poll_add_multi reactor_poll_update reactor_poll_remove
      reactor_epoll_ctl reactor_sendmsg reactor_recvmsg reactor_send reactor_recv reactor_accept
      reactor_connect reactor_send_zerocopy reactor_async_cancel operation
  socket_requests-Ask callback state fd base size id events flags short bits =
      let cut = whole_size size short in
      let int = whole_int fd bits in
      (
        one callback state Opcode.poll_add _ _ (λ user. refl) (λ user. refl) (λ user. refl),
        one callback state Opcode.poll_add _ _ (λ user. refl) (λ user. refl) (λ user. refl),
        one callback state Opcode.poll_remove _ _ (λ user. refl) (λ user. refl) (λ user. refl),
        one callback state Opcode.poll_remove _ _ (λ user. refl) (λ user. refl) (λ user. refl),
        one callback state Opcode.epoll_ctl _ _ (λ user. refl) (λ user. refl)
            (λ user. ap (λ n. some (Operation.epoll_ctl id flags n base)) int),
        one callback state Opcode.sendmsg _ _ (λ user. refl) (λ user. refl) (λ user. refl),
        one callback state Opcode.recvmsg _ _ (λ user. refl) (λ user. refl) (λ user. refl),
        one callback state Opcode.send _ _ (λ user. refl) (λ user. refl)
            (λ user. ap (λ n. some (Operation.send fd base n flags)) cut),
        one callback state Opcode.recv _ _ (λ user. refl) (λ user. refl)
            (λ user. ap (λ n. some (Operation.recv fd base n flags)) cut),
        one callback state Opcode.accept _ _ (λ user. refl) (λ user. refl) (λ user. refl),
        one callback state Opcode.connect _ _ (λ user. refl) (λ user. refl) (λ user. refl),
        one callback state Opcode.send_zc _ _ (λ user. refl) (λ user. refl)
            (λ user. ap (λ n. some (Operation.send_zc fd base n flags)) cut),
        one callback state Opcode.async_cancel _ _ (λ user. refl) (λ user. refl) (λ user. refl),
      )
