-- ===== src/Reactor/Sockets.antt =====
-- The requests on sockets and polls of src/reactor/reactor.c, one function for each. An `int`, a `short` and a
-- pointer are the numbers of their bits; `len` is a `uint32_t`, which a `size_t` is cut to.
use libreactor_refactor.Prelude.{ℕ, ◌%◌}
use libreactor_refactor.Words.{word32}
use libreactor_refactor.Reactor.Defs.{Opcode, Enter}
use libreactor_refactor.Reactor.State.{Callback, Request, request, sign_extend}

module _ (chunk : ℕ → ℕ) (enter : Enter) where
  unfoldable pub reactor_poll_add : Callback → ℕ → ℕ → ℕ → Request
  unfolding request
  reactor_poll_add callback state fd events = request chunk enter callback state (λ user. record {
    opcode = Opcode.poll_add;
    fd = fd;
    off = 0;
    addr = 0;
    len = 0;
    op_flags = events;
    user_data = user;
  })

  unfoldable pub reactor_poll_add_multi : Callback → ℕ → ℕ → ℕ → Request
  unfolding request
  reactor_poll_add_multi callback state fd events = request chunk enter callback state (λ user.
      record {
        opcode = Opcode.poll_add;
        fd = fd;
        off = 0;
        addr = 0;
        len = 1;
        op_flags = events;
        user_data = user;
      })

  unfoldable pub reactor_poll_update : Callback → ℕ → ℕ → ℕ → Request
  unfolding request
  reactor_poll_update callback state id events = request chunk enter callback state (λ user.
      record {
        opcode = Opcode.poll_remove;
        fd = 0;
        off = 0;
        addr = id;
        len = 2;
        op_flags = events;
        user_data = user;
      })

  unfoldable pub reactor_poll_remove : Callback → ℕ → ℕ → Request
  unfolding request
  reactor_poll_remove callback state id = request chunk enter callback state (λ user. record {
    opcode = Opcode.poll_remove;
    fd = 0;
    off = 0;
    addr = id;
    len = 0;
    op_flags = 0;
    user_data = user;
  })

  unfoldable pub reactor_epoll_ctl : Callback → ℕ → ℕ → ℕ → ℕ → ℕ → Request
  unfolding request sign_extend
  reactor_epoll_ctl callback state epoll_fd op fd event =
      request chunk enter callback state (λ user. record {
        opcode = Opcode.epoll_ctl;
        fd = epoll_fd;
        off = sign_extend fd;
        addr = event;
        len = op;
        op_flags = 0;
        user_data = user;
      })

  unfoldable pub reactor_sendmsg : Callback → ℕ → ℕ → ℕ → ℕ → Request
  unfolding request
  reactor_sendmsg callback state socket message flags = request chunk enter callback state (λ user.
      record {
        opcode = Opcode.sendmsg;
        fd = socket;
        off = 0;
        addr = message;
        len = 0;
        op_flags = flags;
        user_data = user;
      })

  unfoldable pub reactor_recvmsg : Callback → ℕ → ℕ → ℕ → ℕ → Request
  unfolding request
  reactor_recvmsg callback state socket message flags = request chunk enter callback state (λ user.
      record {
        opcode = Opcode.recvmsg;
        fd = socket;
        off = 0;
        addr = message;
        len = 0;
        op_flags = flags;
        user_data = user;
      })

  unfoldable pub reactor_send : Callback → ℕ → ℕ → ℕ → ℕ → ℕ → Request
  unfolding request
  reactor_send callback state fd base n flags = request chunk enter callback state (λ user. record {
    opcode = Opcode.send;
    fd = fd;
    off = 0;
    addr = base;
    len = n % word32;
    op_flags = flags;
    user_data = user;
  })

  unfoldable pub reactor_recv : Callback → ℕ → ℕ → ℕ → ℕ → ℕ → Request
  unfolding request
  reactor_recv callback state fd base n flags = request chunk enter callback state (λ user. record {
    opcode = Opcode.recv;
    fd = fd;
    off = 0;
    addr = base;
    len = n % word32;
    op_flags = flags;
    user_data = user;
  })

  unfoldable pub reactor_accept : Callback → ℕ → ℕ → ℕ → ℕ → ℕ → Request
  unfolding request
  reactor_accept callback state fd addr addrlen flags = request chunk enter callback state (λ user.
      record {
        opcode = Opcode.accept;
        fd = fd;
        off = addrlen;
        addr = addr;
        len = 0;
        op_flags = flags;
        user_data = user;
      })

  unfoldable pub reactor_connect : Callback → ℕ → ℕ → ℕ → ℕ → Request
  unfolding request
  reactor_connect callback state fd addr addrlen = request chunk enter callback state (λ user.
      record {
        opcode = Opcode.connect;
        fd = fd;
        off = addrlen;
        addr = addr;
        len = 0;
        op_flags = 0;
        user_data = user;
      })

  unfoldable pub reactor_send_zerocopy : Callback → ℕ → ℕ → ℕ → ℕ → ℕ → Request
  unfolding request
  reactor_send_zerocopy callback state fd base n flags = request chunk enter callback state (λ user.
      record {
        opcode = Opcode.send_zc;
        fd = fd;
        off = 0;
        addr = base;
        len = n % word32;
        op_flags = flags;
        user_data = user;
      })
