-- ===== src/Notify/Defs.antt =====
-- src/reactor/notify.c: the watches. They are objects of a list on a heap; what an object holds is in
-- `watches`, by its address. The results of inotify are those of the kernel: an argument of
-- `notify_add`, and a parameter of what removes watches.
use libreactor_refactor.Prelude.{
  ◌>>=◌, ℕ, zero, suc, ◌+◌, ◌-◌, ◌^◌, Bool, true, false, Option, none, some, List, ltb, ◌==◌,
  if◌then◌else◌,
}
use libreactor_refactor.Reactor.{Enter}
use libreactor_refactor.Reactor.State.{
  Callback, User, Reactor, reactor_user_define, reactor_cancel, reactor_next,
}
use libreactor_refactor.Reactor.Files.{reactor_read, reactor_close}
use libreactor_refactor.List.{
  Heap, list_construct, list_push_back, list_front, list_empty, list_erase, list_clear,
}
use libreactor_refactor.Mapi.{Mapi, mapi_construct, mapi_at, mapi_insert, mapi_erase}
use libreactor_refactor.Maps.{Maps, maps_construct, maps_at, maps_insert, maps_erase}

pub record NotifyEntry : Type 0 where
  pub id : ℕ
  pub path : List ℕ

-- `entries` is the address of the list, `fd` the bits of an `int`, and `abort` whether the pointer is
-- set.
pub record Notify : Type 0 where
  pub user : User
  pub fd : ℕ
  pub read : ℕ
  pub next : ℕ
  pub entries : ℕ
  pub ids : Mapi
  pub paths : Maps
  pub abort : Bool
  pub buffer : List ℕ

pub record World : Type 0 where
  pub notify : Notify
  pub heap : Heap
  pub watches : ℕ → Option NotifyEntry
  pub reactor : Reactor

-- The 32 bits of -1
abbrev pub minus_one : ℕ
minus_one = 4294967295

-- An `int` as a key: its 64 bits.
unfoldable pub key_of : ℕ → ℕ
key_of id = if ltb id (2 ^ 31) then id else id + (2 ^ 64 - 2 ^ 32)

unfoldable pub set_watch : World → ℕ → Option NotifyEntry → World
set_watch w object watch = record w { watches = λ q. if q == object then watch else w.watches q }

unfoldable pub set_notify : World → Notify → Reactor → World
set_notify w n r = record w { notify = n; reactor = r }

-- `entries` and `buffer` are addresses in the structure.
unfoldable pub notify_construct : ℕ → List ℕ → Callback → ℕ → Heap → Notify × Heap
unfolding reactor_user_define list_construct mapi_construct maps_construct
notify_construct entries buffer callback state h = (
  record {
    user = reactor_user_define callback state;
    fd = minus_one;
    read = 0;
    next = 0;
    entries = entries;
    ids = mapi_construct;
    paths = maps_construct;
    abort = false;
    buffer = buffer;
  },
  list_construct h entries,
)

-- `fd` is what `inotify_init1` returns.
unfoldable pub notify_open : World → ℕ → Option World
notify_open w fd =
    if w.notify.fd == minus_one
    then (if ltb fd (2 ^ 31)
        then some (record w { notify = record w.notify { fd = fd } })
        else none)
    else none

-- `self` is the address of the structure, `buffer` that of its buffer; `read_callback` and
-- `next_callback` are those of `notify_read` and `notify_next`.
module _ (chunk : ℕ → ℕ) (enter : Enter) (self buffer read_callback next_callback : ℕ) where
  -- The read of events, which needs a descriptor that is open.
  unfoldable pub ask : World → Option World
  unfolding reactor_read set_notify
  ask w = do
    (r, id) ←
        reactor_read chunk enter (Callback.client read_callback) self w.notify.fd buffer 4096 0
          w.reactor
    some (set_notify w (record w.notify { read = id }) r)

  unfoldable pub drop_read : World → Option World
  unfolding reactor_cancel set_notify
  drop_read w = do
    r ← reactor_cancel chunk enter w.notify.read Callback.null 0 w.reactor
    some (set_notify w (record w.notify { read = 0 }) r)

  unfoldable pub notify_update : World → Option World
  unfolding list_empty ask drop_read
  notify_update w = do
    empty ← list_empty w.heap w.notify.entries
    let asked = ask w
    let dropped = drop_read w
    if w.notify.read == 0
        then (if empty then some w else asked)
        else if empty
        then dropped
        else some w

  unfoldable pub notify_next : World → Option World
  unfolding notify_update
  notify_next w = notify_update (record w { notify = record w.notify { next = 0 } })

  -- A new watch of the path, by which the kernel's id is known.
  unfoldable pub watch : ℕ → World → List ℕ → ℕ → Option World
  unfolding list_push_back mapi_insert maps_insert key_of set_watch
  watch p w path id = do
    (h, object) ← list_push_back w.heap p w.notify.entries none 16
    (ids, i) ← mapi_insert w.notify.ids (key_of id) object false
    (paths, s) ← maps_insert w.notify.paths path object false
    some (
        set_watch (record w { notify = record w.notify { ids = ids; paths = paths }; heap = h })
          object (some (record { id = id; path = path })))

  -- `p` is the address that the new item of the list gets; `id` is what `inotify_add_watch` returns.
  unfoldable pub notify_add : ℕ → ℕ → World → List ℕ → Option (World × ℕ)
  unfolding maps_at watch notify_update
  notify_add p id w path = do
    object ← maps_at w.notify.paths path
    let found = (w.watches object >>= λ e. some (w, e.id))
    let added = (watch p w path id >>= notify_update >>= λ v. some (v, id))
    if object == 0 then (if id == minus_one then some (w, id) else added) else found

  -- `unwatched` is whether `inotify_rm_watch` returns 0.
  module _ (unwatched : ℕ → ℕ → Bool) where
    -- The call for the next round of the loop, where none is due.
    unfoldable pub plan_next : World → Option World
    unfolding reactor_next set_notify
    plan_next w =
        let planned = (do
          (r, id) ← reactor_next chunk enter (Callback.client next_callback) self w.reactor
          some (set_notify w (record w.notify { next = id }) r)) in
        if w.notify.next == 0 then planned else some w

    -- The entry leaves the two tables and the list.
    unfoldable pub forget : World → ℕ → NotifyEntry → Option World
    unfolding mapi_erase maps_erase list_erase key_of set_watch
    forget w object e = do
      (ids, i) ← mapi_erase w.notify.ids (key_of e.id) false
      (paths, s) ← maps_erase w.notify.paths e.path false
      (h, released) ← list_erase w.heap object false
      some (
          set_watch (record w { notify = record w.notify { ids = ids; paths = paths }; heap = h })
            object none)

    unfoldable pub notify_remove_entry : World → ℕ → Option World
    unfolding forget plan_next
    notify_remove_entry w object = do
      e ← w.watches object
      let removed = (forget w object e >>= plan_next)
      if unwatched w.notify.fd e.id then removed else none

    -- The removal of the entry at an address, if there is one.
    unfoldable pub remove_found : World → ℕ → Option (World × Bool)
    unfolding notify_remove_entry
    remove_found w object =
        let removed = (notify_remove_entry w object >>= λ v. some (v, true)) in
        if object == 0 then some (w, false) else removed

    unfoldable pub notify_remove_path : World → List ℕ → Option (World × Bool)
    unfolding maps_at remove_found
    notify_remove_path w path = maps_at w.notify.paths path >>= remove_found w

    unfoldable pub notify_remove_id : World → ℕ → Option (World × Bool)
    unfolding mapi_at remove_found key_of
    notify_remove_id w id = mapi_at w.notify.ids (key_of id) >>= remove_found w

    -- Of so many rounds.
    unfoldable pub remove_all : ℕ → World → Option World
    unfolding list_empty list_front notify_remove_entry
    remove_all zero w = none
    remove_all (suc fuel) w = do
      empty ← list_empty w.heap w.notify.entries
      let rest = (do
        object ← list_front w.heap w.notify.entries
        v ← notify_remove_entry w object
        remove_all fuel v)
      if empty then some w else rest

    -- Whether the flag at `abort` is set is returned too.
    unfoldable pub notify_close : ℕ → World → Option (World × Bool)
    unfolding reactor_cancel reactor_close remove_all set_notify
    notify_close fuel w =
        let cancelled = (do
          r ← reactor_cancel chunk enter w.notify.next Callback.null 0 w.reactor
          some (set_notify w (record w.notify { next = 0 }) r)) in
        let closed = (do
          v ← if w.notify.next == 0 then some w else cancelled
          u ← remove_all fuel v
          (r, id) ← reactor_close chunk enter Callback.null 0 u.notify.fd u.reactor
          some (set_notify u (record u.notify { fd = minus_one }) r, w.notify.abort)) in
        if w.notify.fd == minus_one then some (w, false) else closed

    unfoldable pub notify_destruct : ℕ → World → Option (World × Bool)
    unfolding notify_close list_clear
    notify_destruct fuel w = do
      (v, aborted) ← notify_close fuel w
      (h, released) ← list_clear fuel v.heap v.notify.entries false
      some (record v { heap = h }, aborted)
