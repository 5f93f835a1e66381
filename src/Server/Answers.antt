-- ===== src/Server/Answers.antt =====
-- src/reactor/server.c: all requests that are in the input are answered, and the answers are sent.
use libreactor_refactor.Memory.{Memory}
use libreactor_refactor.Buffer.{Buffer}
use libreactor_refactor.Reactor.State.{Reactor}
use libreactor_refactor.Stream.{Stream}
use libreactor_refactor.Server.Session.{Session}
