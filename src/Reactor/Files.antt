-- ===== src/Reactor/Files.antt =====
-- The requests on files and timeouts of src/reactor/reactor.c, one function for each. An `int`, a `short` and a
-- pointer are the numbers of their bits; `len` is a `uint32_t`, which a `size_t` is cut to.
use libreactor_refactor.Prelude.{ℕ, ◌%◌}
use libreactor_refactor.Words.{word32}
use libreactor_refactor.Reactor.Defs.{Opcode, Enter}
use libreactor_refactor.Reactor.State.{Callback, Request, request, sign_extend}

module _ (chunk : ℕ → ℕ) (enter : Enter) where
  unfoldable pub reactor_nop : Callback → ℕ → Request
  unfolding request
  reactor_nop callback state = request chunk enter callback state (λ user. record {
    opcode = Opcode.nop;
    fd = 0;
    off = 0;
    addr = 0;
    len = 0;
    op_flags = 0;
    user_data = user;
  })

  unfoldable pub reactor_readv : Callback → ℕ → ℕ → ℕ → ℕ → ℕ → Request
  unfolding request
  reactor_readv callback state fd iov iovcnt offset = request chunk enter callback state (λ user.
      record {
        opcode = Opcode.readv;
        fd = fd;
        off = offset;
        addr = iov;
        len = iovcnt;
        op_flags = 0;
        user_data = user;
      })

  unfoldable pub reactor_writev : Callback → ℕ → ℕ → ℕ → ℕ → ℕ → Request
  unfolding request
  reactor_writev callback state fd iov iovcnt offset = request chunk enter callback state (λ user.
      record {
        opcode = Opcode.writev;
        fd = fd;
        off = offset;
        addr = iov;
        len = iovcnt;
        op_flags = 0;
        user_data = user;
      })

  unfoldable pub reactor_fsync : Callback → ℕ → ℕ → Request
  unfolding request
  reactor_fsync callback state fd = request chunk enter callback state (λ user. record {
    opcode = Opcode.fsync;
    fd = fd;
    off = 0;
    addr = 0;
    len = 0;
    op_flags = 0;
    user_data = user;
  })

  unfoldable pub reactor_sync_file_range : Callback → ℕ → ℕ → ℕ → ℕ → ℕ → Request
  unfolding request
  reactor_sync_file_range callback state fd offset nbytes flags =
      request chunk enter callback state (λ user. record {
        opcode = Opcode.sync_file_range;
        fd = fd;
        off = offset;
        addr = 0;
        len = nbytes % word32;
        op_flags = flags;
        user_data = user;
      })

  unfoldable pub reactor_timeout : Callback → ℕ → ℕ → ℕ → ℕ → Request
  unfolding request sign_extend
  reactor_timeout callback state tv count flags = request chunk enter callback state (λ user.
      record {
        opcode = Opcode.timeout;
        fd = 0;
        off = sign_extend count;
        addr = tv;
        len = 1;
        op_flags = flags;
        user_data = user;
      })

  unfoldable pub reactor_read : Callback → ℕ → ℕ → ℕ → ℕ → ℕ → Request
  unfolding request
  reactor_read callback state fd base n offset = request chunk enter callback state (λ user.
      record {
        opcode = Opcode.read;
        fd = fd;
        off = offset;
        addr = base;
        len = n % word32;
        op_flags = 0;
        user_data = user;
      })

  unfoldable pub reactor_write : Callback → ℕ → ℕ → ℕ → ℕ → ℕ → Request
  unfolding request
  reactor_write callback state fd base n offset = request chunk enter callback state (λ user.
      record {
        opcode = Opcode.write;
        fd = fd;
        off = offset;
        addr = base;
        len = n % word32;
        op_flags = 0;
        user_data = user;
      })

  unfoldable pub reactor_fallocate : Callback → ℕ → ℕ → ℕ → ℕ → ℕ → Request
  unfolding request
  reactor_fallocate callback state fd mode offset n = request chunk enter callback state (λ user.
      record {
        opcode = Opcode.fallocate;
        fd = fd;
        off = offset;
        addr = n;
        len = mode;
        op_flags = 0;
        user_data = user;
      })

  unfoldable pub reactor_close : Callback → ℕ → ℕ → Request
  unfolding request
  reactor_close callback state fd = request chunk enter callback state (λ user. record {
    opcode = Opcode.close;
    fd = fd;
    off = 0;
    addr = 0;
    len = 0;
    op_flags = 0;
    user_data = user;
  })
