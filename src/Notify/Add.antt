-- ===== src/Notify/Add.antt =====
-- src/reactor/notify.c: a watch that is added can be found by its path and by its id.
use libreactor_refactor.Prelude.{
  ℕ, ◌+◌, ◌^◌, ◌<◌, true, false, Option, none, some, List, [], ◌∷◌, ◌++◌, ltb, ◌==◌, if◌then◌else◌,
  ◌≡◌, ◌≢◌, refl, sym, ap, ◌∙◌, arith, append-nil,
}
use mathlib.Core.Path.{subst}
use libreactor_refactor.Reactor.{Enter}
use libreactor_refactor.Reactor.Ready.{Surroundings}
use libreactor_refactor.List.{Heap, list_push_back}
use libreactor_refactor.List.Chain.{Absent}
use libreactor_refactor.List.Laws.{HasItems, list_insert-HasItems}
use libreactor_refactor.List.Clear.{no_items}
use libreactor_refactor.Mapi.{Mapi, mapi_insert, callbacks}
use libreactor_refactor.Mapi as Numbers
use libreactor_refactor.Map.Table.{value_or_zero}
use libreactor_refactor.Mapi.Laws.{mapi_insert-view}
use libreactor_refactor.Mapi.View as Ids
use libreactor_refactor.Maps.{Maps, maps_at, maps_insert, string_equal}
use libreactor_refactor.Maps.Laws.{maps_at-view, maps_insert-view}
use libreactor_refactor.Maps.View as Paths
use libreactor_refactor.Maps as Strings
use libreactor_refactor.Notify.Defs.{
  World, minus_one, key_of, set_notify, set_watch, notify_update, watch, notify_add,
}
use libreactor_refactor.Notify.Sound.{IsSound, IsReading, notify_update-Asks, set_here, set_other}

module _ (chunk : ℕ → ℕ) (enter : Enter) (self buffer read_callback next_callback : ℕ)
    (around : Surroundings chunk enter) where
  -- The structure behind a new watch.
  abbrev added_to : World → Heap → Mapi → Maps → ℕ → ℕ → List ℕ → World
  added_to w h ids paths object id path =
      set_watch (record w { notify = record w.notify { ids = ids; paths = paths }; heap = h })
        object (some (record { id = id; path = path }))

  watch-run :
      (p id : ℕ) (w : World) (path : List ℕ) {h : Heap} {object : ℕ} {r : Mapi × List Numbers.Entry}
      {s : Maps × List Strings.Entry}
      → list_push_back w.heap p w.notify.entries none 16 ≡ some (h, object)
      → mapi_insert w.notify.ids id object false ≡ some r
      → maps_insert w.notify.paths path object false ≡ some s
      → id < 2 ^ 31
      → watch chunk enter self buffer read_callback next_callback p w path id
        ≡ some (added_to w h r.0 s.0 object id path)
  unfolding watch key_of
  watch-run p id w path pushed by_id by_path small =
      let positive : ltb id (2 ^ 31) ≡ true = ground (arith, small) in
      rw (pushed, positive, by_id, by_path) refl

  -- What `notify_add` of a path makes of the structure, where neither the path nor the id was there.
  pub record Adds (w : World) (xs : List ℕ) (p id : ℕ) (path : List ℕ) (run : Option (World × ℕ))
      : Type 0 where
    pub world : World
    pub ends : run ≡ some (world, id)
    pub sound : IsSound world (xs ++ (p ∷ []))
    pub reads : IsReading chunk enter self buffer read_callback next_callback around w world
    pub watch : world.watches (p + 16) ≡ some (record { id = id; path = path })
    pub others : (q : ℕ) → q ≢ p + 16 → world.watches q ≡ w.watches q
    pub by_path :
        (j : List ℕ)
        → Paths.view world.notify.paths j
          ≡ (if string_equal path j then some (p + 16) else Paths.view w.notify.paths j)
    pub by_id :
        (j : ℕ)
        → 0 < j
        → Ids.view world.notify.ids j ≡ (if id == j then some (p + 16) else Ids.view w.notify.ids j)

  push_back :
      (h : Heap) (l p : ℕ) (xs : List ℕ)
      → HasItems h l xs
      → Absent p (l ∷ xs)
      → (g : Heap) × (list_push_back h p l none 16 ≡ some (g, p + 16))
        × HasItems g l (xs ++ (p ∷ []))
  unfolding list_push_back
  push_back h l p xs items fresh =
      let same = sym (append-nil xs) in
      let (g, run, held, object, kept) =
        list_insert-HasItems h l p xs [] none 16 (subst (HasItems h l) same items)
          (subst (λ (ys : List ℕ). Absent p (l ∷ ys)) same fresh) in
      (g, run, held)

  some_of_append : (xs : List ℕ) (p : ℕ) → no_items (xs ++ (p ∷ [])) ≡ false
  some_of_append [] p = refl
  some_of_append (x ∷ xs) p = refl

  added-run :
      (p id : ℕ) (w : World) (path : List ℕ) {v u : World}
      → maps_at w.notify.paths path ≡ some 0
      → id < 2 ^ 31
      → watch chunk enter self buffer read_callback next_callback p w path id ≡ some v
      → notify_update chunk enter self buffer read_callback next_callback v ≡ some u
      → notify_add chunk enter self buffer read_callback next_callback p id w path ≡ some (u, id)
  unfolding notify_add
  added-run p id w path absent small watched updated =
      let given : (id == minus_one) ≡ false = ground (arith, small) in
      rw (absent, given, watched, updated) refl

  -- `notify_add`, where the tables have room, the new item of the list is fresh, and neither the path nor
  -- the positive id that the kernel returns is there: it returns the id; the path and the id lead to the
  -- new watch, which is the last of the list; the other paths, ids and watches stay; and a read of
  -- events is on its way: if there was none, it was queued now, as the last entry of the ring, for 4096
  -- bytes of the descriptor into the buffer.
  pub notify_add-Adds :
      (p id : ℕ) (w : World) (path : List ℕ) (xs : List ℕ)
      → IsSound w xs
      → Absent p (w.notify.entries ∷ xs)
      → w.notify.ids.elements_count < 2 ^ 62
      → w.notify.paths.elements_count < 2 ^ 62
      → 0 < id
      → id < 2 ^ 31
      → Paths.view w.notify.paths path ≡ none
      → Ids.view w.notify.ids id ≡ none
      → Adds w xs p id path
          (notify_add chunk enter self buffer read_callback next_callback p id w path)
  unfolding set_notify set_watch
  notify_add-Adds p id w path xs sound fresh ids_room paths_room pos small no_path no_id =
      let (h, pushed, held) = push_back w.heap w.notify.entries p xs sound.items fresh in
      let (r, by_id, ids, there) = mapi_insert-view sound.ids id pos (p + 16) false ids_room in
      let (s, by_path, paths, found) =
        maps_insert-view sound.paths path (p + 16) false paths_room in
      let v = added_to w h r.0 s.0 (p + 16) id path in
      let a =
        notify_update-Asks chunk enter self buffer read_callback next_callback around v
          (xs ++ (p ∷ [])) (record { items = held; ids = ids; paths = paths; ready = sound.ready })
          (some_of_append xs p) in
      record {
        world = set_notify v (record v.notify { read = a.id }) a.reactor;
        ends =
            added-run p id w path
              (maps_at-view sound.paths path ∙ ap (λ o. some (value_or_zero o)) no_path) small
              (watch-run p id w path pushed by_id by_path small) a.ends;
        sound = record { items = held; ids = ids; paths = paths; ready = a.ready };
        reads = a.reading;
        watch = set_here w.watches (p + 16) _;
        others = λ q n. set_other w.watches (p + 16) q _ n;
        by_path = λ j. found j ∙ rw no_path refl;
        by_id = λ j jpos. there j jpos ∙ rw no_id refl;
      }
