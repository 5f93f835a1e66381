-- ===== src/Notify/Events.antt =====
-- src/reactor/notify.c: the events that the kernel writes to the buffer.
use libreactor_refactor.Prelude.{
  ◌>>=◌, ℕ, zero, suc, ◌+◌, ◌^◌, Bool, true, false, Option, none, some, List, ltb, ◌==◌,
  if◌then◌else◌,
}
use libreactor_refactor.Hash.{fetch32}
use libreactor_refactor.Reactor.{Enter}
use libreactor_refactor.Mapi.{mapi_at}
use libreactor_refactor.Notify.Defs.{NotifyEntry, World, key_of, notify_update}

-- `struct inotify_event`, at some offset of the buffer.
pub record InotifyEvent : Type 0 where
  pub wd : ℕ
  pub mask : ℕ
  pub len : ℕ

unfoldable pub event_at : List ℕ → ℕ → Option InotifyEvent
unfolding fetch32
event_at m p = do
  wd ← fetch32 m p
  mask ← fetch32 m (p + 4)
  len ← fetch32 m (p + 12)
  some (record { wd = wd; mask = mask; len = len })

-- What the user gets; `name` is the offset of the name in the buffer, or `none` for the empty string.
pub record NotifyEvent : Type 0 where
  pub mask : ℕ
  pub id : ℕ
  pub name : Option ℕ
  pub path : List ℕ

-- What the user's callback makes of the state, and whether the flag at `abort` is set in the end.
abbrev pub Handler : Type 0
Handler = NotifyEvent → World → Option (World × Bool)

-- The event of an entry at the offset `p`.
unfoldable pub event_of : InotifyEvent → ℕ → NotifyEntry → NotifyEvent
event_of i p e = record {
  mask = i.mask;
  id = e.id;
  name = if i.len == 0 then none else some (p + 16);
  path = e.path;
}

-- The user is called for an event whose entry is there.
unfoldable pub report : Handler → InotifyEvent → ℕ → World → Option (World × Bool)
unfolding mapi_at key_of event_of
report handle i p w = do
  object ← mapi_at w.notify.ids (key_of i.wd)
  let called = (w.watches object >>= λ e. handle (event_of i p e) w)
  if object == 0 then some (w, false) else called

-- The loop of `notify_read`, of so many rounds: whether it was left for the flag. The length is read
-- again behind the call.
unfoldable pub read_from : Handler → ℕ → ℕ → ℕ → World → Option (World × Bool)
unfolding event_at report
read_from handle zero p result w = none
read_from handle (suc fuel) p result w =
    let round = (do
      i ← event_at w.notify.buffer p
      (v, aborted) ← report handle i p w
      let rest = (do
        j ← event_at v.notify.buffer p
        read_from handle fuel (p + 16 + j.len) result v)
      if aborted then some (v, true) else rest) in
    if ltb p result then round else some (w, false)

module _ (chunk : ℕ → ℕ) (enter : Enter) (self buffer read_callback next_callback : ℕ) where
  -- `result` is the bits of an `int`. A round takes 16 bytes at least.
  unfoldable pub notify_read : Handler → World → ℕ → Option World
  unfolding read_from notify_update
  notify_read handle w result =
      let start = record w { notify = record w.notify { read = 0; abort = true } } in
      let events = (do
        (v, aborted) ← read_from handle (suc result) 0 result start
        let updated =
            notify_update chunk enter self buffer read_callback next_callback
              (record v { notify = record v.notify { abort = false } })
        if aborted then some v else updated) in
      if ltb result (2 ^ 31) then events else none
