-- ===== src/Notify/Told.antt =====
-- src/reactor/notify.c: what the user is told of an event, by what the tables stand for.
use libreactor_refactor.Prelude.{
  ◌>>=◌, ℕ, ◌+◌, ◌-◌, ◌^◌, ◌<◌, Bool, false, Option, none, some, List, [], ◌∷◌, length, ltb, ◌==◌,
  if◌then◌else◌, ◌≡◌, ◌≢◌, refl, sym, ap, ◌∙◌, arith,
}
use mathlib.Core.Option.{some_inj}
use mathlib.Core.Path.{subst}
use libreactor_refactor.Map.Slots.{IsValid}
use libreactor_refactor.Map.Table.{value_or_zero}
use libreactor_refactor.Mapi.{callbacks, mapi_at}
use libreactor_refactor.Mapi.Laws.{mapi_at-view}
use libreactor_refactor.Mapi.View as Ids
use libreactor_refactor.Notify.Defs.{NotifyEntry, World, key_of}
use libreactor_refactor.Notify.Events.{InotifyEvent, Handler, NotifyEvent, event_of, report}

-- An event of the kernel, with the bytes of its name.
pub record Written : Type 0 where
  pub wd : ℕ
  pub mask : ℕ
  pub cookie : ℕ
  pub name : List ℕ

abbrev pub header : Written → InotifyEvent
header e = record { wd = e.wd; mask = e.mask; len = length e.name }

-- The table of the ids is valid, and each of its objects is a watch.
pub record IsIndexed (w : World) : Type 0 where
  pub valid : IsValid ⦃cb = callbacks⦄ w.notify.ids
  pub watched :
      (j object : ℕ)
      → 0 < j
      → Ids.view w.notify.ids j ≡ some object
      → (object ≢ 0) × (e : NotifyEntry) × (w.watches object ≡ some e)

-- The 64 bits of the number with these 32 bits: a negative one counts down from 2 ^ 64.
abbrev pub extended : ℕ → ℕ
extended id = if ltb id (2 ^ 31) then id else 2 ^ 64 - (2 ^ 32 - id)

-- Where the name of an event at the offset `p` is.
abbrev pub name_at : List ℕ → ℕ → Option ℕ
name_at [] p = none
name_at (c ∷ name) p = some (p + 16)

-- The watch that is known by an id.
abbrev pub watch_by : World → ℕ → Option NotifyEntry
watch_by w id = Ids.view w.notify.ids (extended id) >>= w.watches

-- What the user is told: the mask of the event, the id and the path of the watch, and where the name is.
abbrev pub told_of : Written → ℕ → NotifyEntry → NotifyEvent
told_of e p x = record { mask = e.mask; id = x.id; name = name_at e.name p; path = x.path }

-- The user is told of an event whose watch is there, and of no other.
abbrev pub tell_by : Handler → Written → ℕ → World → Option NotifyEntry → Option (World × Bool)
tell_by handle e p w none = some (w, false)
tell_by handle e p w (some x) = handle (told_of e p x) w

unfoldable pub tell : Handler → Written → ℕ → World → Option (World × Bool)
tell handle e p w = tell_by handle e p w (watch_by w e.wd)

-- A call of the user that does not close the structure leaves the buffer, and a table whose objects are
-- watches.
abbrev pub Keeps : Handler → Type 0
Keeps handle =
    (e : NotifyEvent) (w v : World)
    → IsIndexed w
    → handle e w ≡ some (v, false)
    → (v.notify.buffer ≡ w.notify.buffer) × IsIndexed v

pub event_of-told :
    (e : Written) (p : ℕ) (x : NotifyEntry) → event_of (header e) p x ≡ told_of e p x
unfolding event_of
event_of-told e p x =
    ap (λ (o : Option ℕ). record { mask = e.mask; id = x.id; name = o; path = x.path })
      (place e.name)
  where
    place : (name : List ℕ) → (if length name == 0 then none else some (p + 16)) ≡ name_at name p
    place [] = refl
    place (c ∷ name) = let given : (length (c ∷ name) == 0) ≡ false = ground arith in rw given refl

key_of-extended : (id : ℕ) → id < 2 ^ 32 → key_of id ≡ extended id
unfolding key_of
key_of-extended id small = ground (arith, small)

extended_pos : (id : ℕ) → 0 < id → id < 2 ^ 32 → 0 < extended id
extended_pos id pos small = ground (arith, pos, small)

module _ (handle : Handler) where
  found_told :
      (e : Written) (p : ℕ) (w : World) (o : Option ℕ)
      → ((object : ℕ)
          → o ≡ some object
          → (object ≢ 0) × (x : NotifyEntry) × (w.watches object ≡ some x))
      → (if value_or_zero o == 0
          then some (w, false)
          else (w.watches (value_or_zero o) >>= λ x. handle (event_of (header e) p x) w))
        ≡ tell_by handle e p w (o >>= w.watches)
  found_told e p w none watched = refl
  found_told e p w (some object) watched =
      let (there, x, watch) = watched object refl in
      let test : (object == 0) ≡ false = ground (arith, there) in
      rw (test, watch) (ap (λ (t : NotifyEvent). handle t w) (event_of-told e p x))

  -- The report of an event looks its watch up in the table.
  pub report-tell :
      (e : Written) (p : ℕ) (w : World)
      → IsIndexed w
      → 0 < e.wd
      → e.wd < 2 ^ 32
      → report handle (header e) p w ≡ tell handle e p w
  unfolding report tell
  report-tell e p w h pos small =
      let k = extended e.wd in
      let kpos = extended_pos e.wd pos small in
      let found : mapi_at w.notify.ids (key_of e.wd)
          ≡ some (value_or_zero (Ids.view w.notify.ids k)) =
        ap (mapi_at w.notify.ids) (key_of-extended e.wd small) ∙ mapi_at-view h.valid k kpos in
      rw found
        (found_told e p w (Ids.view w.notify.ids k) (λ object at. h.watched k object kpos at))

  told-Keeps :
      (keeps : Keeps handle) (e : Written) (p : ℕ) (w v : World) (o : Option NotifyEntry)
      → IsIndexed w
      → tell_by handle e p w o ≡ some (v, false)
      → (v.notify.buffer ≡ w.notify.buffer) × IsIndexed v
  told-Keeps keeps e p w v none h run =
      let same : w ≡ v = ap (λ (x : World × Bool). x.0) (some_inj.0 run) in
      (ap (λ (x : World). x.notify.buffer) (sym same), subst IsIndexed same h)
  told-Keeps keeps e p w v (some x) h run = keeps (told_of e p x) w v h run

  pub tell-Keeps :
      (keeps : Keeps handle) (e : Written) (p : ℕ) (w v : World)
      → IsIndexed w
      → tell handle e p w ≡ some (v, false)
      → (v.notify.buffer ≡ w.notify.buffer) × IsIndexed v
  unfolding tell
  tell-Keeps keeps e p w v h run = told-Keeps keeps e p w v (watch_by w e.wd) h run
