-- ===== src/Lib.antt =====
-- libreactor: an asynchronous event library over io_uring, with its containers.
--
-- The program's parts, and the files here that model them:
--   src/reactor/map.c, map.h        Map      a hash table with linear probing, on any element type
--   src/reactor/mapi.c, mapi.h      Mapi     the table of numbers by numbers, over map.c
--   src/reactor/maps.c, maps.h      Maps     the table of numbers by strings, over map.c
--   src/reactor/hash.c, hash.h      Hash     `hash_uint64`, and the hash of strings
--   src/reactor/data.c, data.h      Data     regions of bytes, and their comparison
--   src/reactor/buffer.c, buffer.h  Buffer   bytes in a block that grows
--   src/reactor/vector.c, vector.h  Vector   objects of one size in a buffer
--   src/reactor/pool.c, pool.h      Pool     objects of one size, handed out from chunks
--   src/reactor/reactor.c           Reactor  the rings shared with the kernel, the users, the requests,
--                                            the loop
--   src/reactor/timer.c, timer.h    Timer    timeouts at a time and at intervals
--   src/reactor/object.c            Object   objects that count their references
--   src/reactor/stream.c, stream.h  Stream   buffered input and output on a descriptor
--   src/reactor/http.c, http.h      Http     requests are read, responses written
--   src/reactor/list.c, list.h      List     a doubly linked list of objects on a heap
--   src/reactor/event.c, event.h    Event    signals through a counter of the kernel
--   src/reactor/queue.c, queue.h    Queue    elements of one size through a pipe
--   src/reactor/notify.c, notify.h  Notify   watches of files, by path and by id
--   src/reactor/server.c, server.h  Server   the HTTP server: its sessions, and its date
--   src/reactor/resolver.c          Resolver the look-up of names on another thread
--   Prelude, Words, Memory      shared: names and lists, `size_t` and `uint32_t` arithmetic, blocks of
--                               memory with memcpy, memmove and realloc
-- mapi.c and maps.c call map.c and hash.c; vector.c calls buffer.c; pool.c keeps its free objects in a
-- vector; reactor.c keeps its users in a pool and the calls for the next round in a vector; timer.c,
-- event.c, stream.c and queue.c call reactor.c; stream.c, queue.c and http.c write to buffers; http.c
-- compares by data.c. notify.c keeps its watches in a list, and finds them by a table of each kind.
-- server.c reads requests from its streams and writes responses to them by http.c, keeps its sessions in
-- a list, and its date by a timer.
--
-- A function of the source has the same name here, save that those of map.c drop the prefix `map_`.
-- A struct is a record. A function that changes the struct takes it and returns the new one. The
-- result `none` is a run that leaves an array, that fails an `assert`, or that needs more fuel.
-- Numbers are natural numbers, and the operations of `size_t` and `uint32_t` wrap as written in Words.
--
-- Map: an array is a list, and a pointer to an element its index. The callbacks `hash`, `equal` and
-- `set` are a parameter whose laws are `IsKeyed` of Map/Slots.antt, which Mapi and Maps prove of
-- their own. What is proved of keys and values is in Map/Table.antt, for any `Keys` of Map/View.antt, and
-- Mapi and Maps give theirs. `strcmp` is `string_equal` of Maps/Defs.antt. A search gets as many rounds as
-- the array has elements, enough where one element is empty.
-- `map_insert` and `map_rehash` call each other: two levels are enough, because a table that was just
-- grown has room.
--
-- Buffer and Vector: a block is the list of its bytes, where a byte that was never set has no value.
-- A pointer into the block is an offset. An allocation does not fail, as the source does not test it.
--
-- Pool and Reactor: an object is its address; the address of the n-th chunk is a parameter, and so is
-- what `io_uring_enter` does to the rings (`Takes` of Reactor/Ring.antt: it takes what it is asked to
-- take). `operation` of Reactor/Operation.antt says what io_uring takes an entry for; the theorems on the
-- requests go by it, and no definition of the program does. The callbacks of the program are a parameter of
-- the loop. A pointer to a function is its number.
--
-- Event: the call of the user inside of `event_read` is a parameter, which also says whether the flag
-- at `abort` was set.
--
-- Stream: the state is the stream with the reactor, and the kernel's answers are the argument of the
-- callbacks. An action of Stream/Run.antt is a write, a flush, or a send of which the kernel took some
-- bytes; `Reaches` of Stream/Reach.antt is any sequence of them. What it took is read off the last entry
-- of the ring, by the address and the length there (`named` of Stream/Named.antt).
--
-- Queue: the state is the producer, or the consumer, with the reactor. The call of the user inside of
-- `queue_consumer_read` is the parameter `Pop`, which also says whether the flag at `abort` was set. The
-- loop there has one round more than the read has bytes, and a round takes a byte at least. What the
-- kernel takes from a producer is read off the entry of the ring, as for a stream.
--
-- Notify: the state is the structure with the heap, the watches and the reactor. What
-- `inotify_add_watch` returns is an argument, what `inotify_rm_watch` returns a parameter. The loop of
-- `notify_read` has one round more than the read has bytes, of which a round takes 16 at least. What the
-- user is told of an event is written down once more in Notify/Told.antt, by what the tables stand for.
--
-- Server: `Session` is a `server_request`. The functions of one session take it with the reactor and
-- return it, or nothing where it was freed, which is when the flag at `abort` is set. The user is a
-- `Handler`. A body in chunks is joined in place, so the input changes (`joined_at`). `server_parse`
-- calls itself, and has one round more than the input has bytes, of which a round takes one at least.
-- `gmtime` and `formatted` are those of the C library, for the times from 1970 on. The fuel of
-- `server_close` and `server_destruct` is an argument: one more than the list has sessions.
--
-- Resolver: what `getaddrinfo` and `reactor_async` return are parameters; `resolver_async` is one
-- definition for each type of its event.
--
-- Http: the five rounds of `utility_u32_sprint` are enough for 32 bits. The loops of `http_dechunk` have
-- one round more than the request has bytes; each takes a byte at least. A string literal is `codes`.
--
-- List: the heap gives the item at an address, or none where no item is. An object is 16 bytes behind
-- its item. `list_clear` and `list_find` have their number of rounds as an argument: one more than the
-- list has items is enough for `list_clear`.
--
-- Not modelled: the set-up of the rings by system calls, and `reactor_async`, which starts a thread;
-- `event_signal_sync` of event.c, and `queue_destruct` and the functions of queue.c that end in `_sync`,
-- which are system calls, and `queue_cancel`, which frees a block;
-- picohttpparser, which is another project's library and whose `phr_parse_request` is a parameter of
-- `http_read_request`.
pub mod Prelude
pub mod Words
pub mod Memory
pub mod Buffer
pub mod Vector
pub mod Pool
pub mod Reactor
pub mod Timer
pub mod Stream
pub mod Data
pub mod Http
pub mod List
pub mod Event
pub mod Object
pub mod Queue
pub mod Server
pub mod Resolver
pub mod Map
pub mod Hash
pub mod Mapi
pub mod Maps
pub mod Notify
