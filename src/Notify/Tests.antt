-- ===== src/Notify/Tests.antt =====
-- Tests and concrete cases for src/reactor/notify.c.
use mathlib.Core.Option.{some_inj}
use mathlib.Core.Path.{subst}
use native.Mathlib.Decide.{ℕ_discrete}
use libreactor_refactor.Mapi.View as Ids
use libreactor_refactor.Notify.Told.{Written, IsIndexed, Keeps}
use libreactor_refactor.Notify.Each.{written, report_each, notify_read-each}
use libreactor_refactor.Notify.Events.{Handler, notify_read}
use libreactor_refactor.Prelude.{
  ◌∷◌, length, append-nil, ap, sym, ◌+◌, ◌*◌, ◌>>=◌, ℕ, Bool, true, false, Option, some, none, List,
  [], codes, if◌then◌else◌, ◌==◌, ◌≡◌, ◌≢◌, refl, arith, ◌∙◌,
}
use libreactor_refactor.Words.{fill_below, sub64}
use libreactor_refactor.Pool.{pool_construct}
use libreactor_refactor.Pool.Tests.{chunk}
use libreactor_refactor.Reactor.State.{Callback}
use libreactor_refactor.Reactor.Tests.{reactor, enter}
use libreactor_refactor.Stream.Tests.{around, reactor-IsReady}
use libreactor_refactor.List.{Heap, next_of, previous_of}
use libreactor_refactor.List.Laws.{HasItems}
use libreactor_refactor.Hash.{hash_uint64}
use libreactor_refactor.Mapi as Numbers
use libreactor_refactor.Maps as Strings
use libreactor_refactor.Mapi.{mapi_construct}
use libreactor_refactor.Mapi.Laws.{mapi_construct-view}
use libreactor_refactor.Maps.{string_equal, maps_construct}
use libreactor_refactor.Maps.Laws.{maps_construct-view}
use libreactor_refactor.Notify.Defs.{
  World, notify_update, notify_add, notify_remove_path, notify_remove_id, notify_close,
}
use libreactor_refactor.Notify.Sound.{IsSound}
use libreactor_refactor.Notify.Add.{Adds, notify_add-Adds}
use libreactor_refactor.Notify.Remove.{Removes, notify_remove_path-Removes}

abbrev no_items : Heap
no_items q = if q == 100 then some (record { next = 100; previous = 100; object = [] }) else none

-- Nothing is watched.
abbrev start : World
start = record {
  notify = record {
    user = record { callback = Callback.client 8; state = 0 };
    fd = 5;
    read = 0;
    next = 0;
    entries = 100;
    ids = mapi_construct;
    paths = maps_construct;
    abort = false;
    buffer = [];
  };
  heap = no_items;
  watches = λ q. none;
  reactor = reactor;
}

no_items-HasItems : HasItems no_items 100 []
unfolding next_of previous_of
no_items-HasItems = record { distinct = (tt, tt); chain = (refl, refl) }

start-IsSound : IsSound start []
start-IsSound = record {
  items = no_items-HasItems;
  ids = mapi_construct-view.0;
  paths = maps_construct-view.0;
  ready = reactor-IsReady;
}

abbrev tmp : List ℕ
tmp = codes "/tmp"

notify_add-Adds_example :
    Adds chunk enter 1 2 3 4 around start [] 200 7 tmp
      (notify_add chunk enter 1 2 3 4 200 7 start tmp)
unfolding mapi_construct maps_construct
notify_add-Adds_example =
    notify_add-Adds chunk enter 1 2 3 4 around 200 7 start tmp [] start-IsSound
      ((λ e. omega arith), tt) (omega arith) (omega arith) (omega arith) (omega arith)
      (maps_construct-view.2 tmp) (mapi_construct-view.2 7 (omega arith))

-- One path is watched.
abbrev watching :
    Adds chunk enter 1 2 3 4 around start [] 200 7 tmp
      (notify_add chunk enter 1 2 3 4 200 7 start tmp)
unfolding mapi_construct maps_construct
watching =
    notify_add-Adds chunk enter 1 2 3 4 around 200 7 start tmp [] start-IsSound
      ((λ e. omega arith), tt) (omega arith) (omega arith) (omega arith) (omega arith)
      (maps_construct-view.2 tmp) (mapi_construct-view.2 7 (omega arith))

abbrev all_gone : ℕ → ℕ → Bool
all_gone fd id = true

watching_tmp : (x y : Option ℕ) → (if string_equal tmp tmp then x else y) ≡ x
unfolding string_equal
watching_tmp x y = refl

notify_remove_path-Removes_example :
    Removes chunk enter 1 2 3 4 around watching.world [] [] 200 7 tmp
      (notify_remove_path chunk enter 1 2 3 4 all_gone watching.world tmp)
notify_remove_path-Removes_example =
    notify_remove_path-Removes chunk enter 1 2 3 4 around all_gone 200 7 watching.world tmp [] []
      watching.sound (watching.by_path tmp ∙ rw (maps_construct-view.2 tmp) (watching_tmp _ none))
      watching.watch (omega arith) (omega arith) refl

-- `notify_close` cancels the planned call, and then the removal of an entry plans it again: it is still
-- due afterwards, and the read of events too.
abbrev closed : Option (Bool × Bool × ℕ)
closed = do
  (v, id) ← notify_add chunk enter 1 2 3 4 200 7 start tmp
  (u, aborted) ← notify_close chunk enter 1 2 3 4 all_gone 2 v
  some (u.notify.next == 0, u.notify.read == 0, u.notify.fd)

closed_with_call : closed ≡ some (false, false, 4294967295)
unfolding notify_add notify_close mapi_construct maps_construct string_equal fill_below sub64
    pool_construct Strings.hash Strings.equal Strings.set Numbers.hash Numbers.equal Numbers.set
    hash_uint64
closed_with_call = refl

-- A second path of a file gets the id of the first from the kernel. When the second is removed, the
-- first is not known by the id any more, and `notify_read` does not report its events.
abbrev second_removed : Option (Bool × Bool)
second_removed = do
  (v, id) ← notify_add chunk enter 1 2 3 4 200 7 start tmp
  (u, same) ← notify_add chunk enter 1 2 3 4 300 7 v (codes "/tmp/.")
  (t, removed) ← notify_remove_path chunk enter 1 2 3 4 all_gone u (codes "/tmp/.")
  (s, known) ← notify_remove_id chunk enter 1 2 3 4 all_gone t 7
  some (removed, known)

two_paths : second_removed ≡ some (true, false)
unfolding notify_add notify_remove_path notify_remove_id mapi_construct maps_construct string_equal
    fill_below sub64 pool_construct Strings.hash Strings.equal Strings.set Numbers.hash
    Numbers.equal Numbers.set hash_uint64
two_paths = refl

-- An event of the path that is watched, with the name "a", and one of a watch that is gone.
abbrev two_events : List Written
two_events =
    record { wd = 7; mask = 2; cookie = 0; name = 97 ∷ 0 ∷ [] }
    ∷ record { wd = 9; mask = 2; cookie = 0; name = [] }
    ∷ record { wd = 7; mask = 256; cookie = 0; name = [] }
    ∷ []

abbrev ready : World
ready = record start { notify = record start.notify { buffer = written two_events } }

-- The user notes the masks in `time`.
abbrev noted : Handler
noted e w =
    some (record w { reactor = record w.reactor { time = w.reactor.time * 1000 + e.mask } }, false)

noted-Keeps : Keeps noted
noted-Keeps e w v h run =
    let same : record w { reactor = record w.reactor { time = w.reactor.time * 1000 + e.mask } }
        ≡ v =
      ap (λ (x : World × Bool). x.0) (some_inj.0 run) in
    (
      ap (λ (x : World). x.notify.buffer) (sym same),
      subst IsIndexed same (record { valid = h.valid; watched = h.watched }),
    )

abbrev read_two : Option (ℕ × Bool)
read_two = do
  (v, id) ← notify_add chunk enter 1 2 3 4 200 7 ready tmp
  u ← notify_read chunk enter 1 2 3 4 noted v 50
  some (u.reactor.time, u.notify.read == 0)

both_reported : read_two ≡ some (2256, false)
unfolding notify_add notify_read written mapi_construct maps_construct string_equal fill_below sub64
    pool_construct Strings.hash Strings.equal Strings.set Numbers.hash Numbers.equal Numbers.set
    hash_uint64
both_reported = refl

-- The path is watched, and the three events are in the buffer.
abbrev watching_ready : World
watching_ready = record watching.world {
  notify = record watching.world.notify { buffer = written two_events };
}

none_is_not : (x : ℕ) → none ≢ some x
none_is_not x e = absurd (cc)

picked : (c : Bool) (x y : Option ℕ) → c ≡ true → (if c then x else y) ≡ x
picked c x y e = rw e refl

left : (c : Bool) (x y : Option ℕ) → c ≡ false → (if c then x else y) ≡ y
left c x y e = rw e refl

-- The id 7 leads to the watch, and no other leads to any.
watching_ready-IsIndexed : IsIndexed watching_ready
watching_ready-IsIndexed = record {
  valid = watching.sound.ids;
  watched = λ j object pos there. elim (ℕ_discrete 7 j) [
    | yes e ↦
        let test : (7 == j) ≡ true = ground (arith, e) in
        let at : some 216 ≡ some object =
          sym (watching.by_id j pos ∙ picked (7 == j) (some 216) _ test) ∙ there in
        let place : object ≡ 216 = sym (some_inj.0 at) in
        (
          λ z. absurd (omega (arith, z, place)),
          record { id = 7; path = tmp },
          ap watching.world.watches place ∙ watching.watch,
        )
    | no n ↦
        let test : (7 == j) ≡ false = ground (arith, n) in
        let at : Ids.view watching.world.notify.ids j ≡ none =
          watching.by_id j pos ∙ left (7 == j) (some 216) _ test ∙ mapi_construct-view.2 j pos in
        absurd (none_is_not object (sym at ∙ there))
  ];
}

notify_read-each_example :
    notify_read chunk enter 1 2 3 4 noted watching_ready (length (written two_events)) ≡ (do
      (v, aborted) ← report_each noted two_events 0 (record watching_ready {
        notify = record watching_ready.notify { read = 0; abort = true };
      })
      let updated =
          notify_update chunk enter 1 2 3 4
            (record v { notify = record v.notify { abort = false } })
      if aborted then some v else updated)
notify_read-each_example =
    notify_read-each noted noted-Keeps chunk enter 1 2 3 4 two_events [] watching_ready
      (sym (append-nil (written two_events))) watching_ready-IsIndexed
      (
        omega arith,
        omega arith,
        omega arith,
        omega arith,
        (
          omega arith,
          omega arith,
          omega arith,
          omega arith,
          (omega arith, omega arith, omega arith, omega arith, tt),
        ),
      )
      (unfold written in omega arith)
