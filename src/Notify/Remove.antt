-- ===== src/Notify/Remove.antt =====
-- src/reactor/notify.c: a watch that is removed is found no more, and the others stay.
use libreactor_refactor.Prelude.{
  ◌>>=◌, ℕ, ◌+◌, ◌^◌, ◌<◌, Bool, true, false, Option, none, some, List, [], ◌∷◌, ◌++◌, ltb, ◌==◌,
  if◌then◌else◌, ◌≡◌, ◌≢◌, refl, ap, ◌∙◌, arith,
}
use libreactor_refactor.Reactor.{Enter}
use libreactor_refactor.Reactor.Ready.{Surroundings}
use libreactor_refactor.List.{Heap, list_erase}
use libreactor_refactor.List.Laws.{list_erase-HasItems}
use libreactor_refactor.Mapi.{Mapi, mapi_erase, callbacks}
use libreactor_refactor.Mapi as Numbers
use libreactor_refactor.Map.Table.{value_or_zero}
use libreactor_refactor.Mapi.Laws.{mapi_erase-view}
use libreactor_refactor.Mapi.View as Ids
use libreactor_refactor.Maps.{Maps, maps_at, maps_erase, string_equal}
use libreactor_refactor.Maps.Laws.{maps_at-view, maps_erase-view}
use libreactor_refactor.Maps.View as Paths
use libreactor_refactor.Maps as Strings
use libreactor_refactor.Notify.Defs.{
  forget, remove_found, notify_remove_entry, notify_remove_path, plan_next, NotifyEntry, World,
  key_of, set_notify, set_watch, watch,
}
use libreactor_refactor.Notify.Sound.{IsSound, IsPlanned, plan_next-Calls, set_here, set_other}

module _ (chunk : ℕ → ℕ) (enter : Enter) (self buffer read_callback next_callback : ℕ)
    (around : Surroundings chunk enter) where
  -- What a removal makes of the structure: the watch at the item is gone, and the rest stays.
  pub record Removes (w : World) (ys zs : List ℕ) (p id : ℕ) (path : List ℕ)
      (run : Option (World × Bool)) : Type 0 where
    pub world : World
    pub ends : run ≡ some (world, true)
    pub sound : IsSound world (ys ++ zs)
    pub planned : IsPlanned chunk enter self buffer read_callback next_callback around w world
    pub watch : world.watches (p + 16) ≡ none
    pub others : (q : ℕ) → q ≢ p + 16 → world.watches q ≡ w.watches q
    pub by_path :
        (j : List ℕ)
        → Paths.view world.notify.paths j
          ≡ (if string_equal path j then none else Paths.view w.notify.paths j)
    pub by_id :
        (j : ℕ)
        → 0 < j
        → Ids.view world.notify.ids j ≡ (if id == j then none else Ids.view w.notify.ids j)

  module _ (unwatched : ℕ → ℕ → Bool) where
    -- The structure without a watch.
    abbrev removed_from : World → Heap → Mapi → Maps → ℕ → World
    removed_from w h ids paths object =
        set_watch (record w { notify = record w.notify { ids = ids; paths = paths }; heap = h })
          object none

    forget-run :
        (w : World) (object id : ℕ) (path : List ℕ) {h : Heap} {r : Mapi × List Numbers.Entry}
        {s : Maps × List Strings.Entry}
        → mapi_erase w.notify.ids id false ≡ some r
        → maps_erase w.notify.paths path false ≡ some s
        → list_erase w.heap object false ≡ some (h, [])
        → id < 2 ^ 31
        → forget chunk enter self buffer read_callback next_callback unwatched w object
            (record { id = id; path = path })
          ≡ some (removed_from w h r.0 s.0 object)
    unfolding forget key_of
    forget-run w object id path by_id by_path erased small =
        let positive : ltb id (2 ^ 31) ≡ true = ground (arith, small) in
        rw (positive, by_id, by_path, erased) refl

    remove_found-run :
        (w : World) (object : ℕ) (e : NotifyEntry) {v u : World}
        → object ≢ 0
        → w.watches object ≡ some e
        → unwatched w.notify.fd e.id ≡ true
        → forget chunk enter self buffer read_callback next_callback unwatched w object e ≡ some v
        → plan_next chunk enter self buffer read_callback next_callback unwatched v ≡ some u
        → remove_found chunk enter self buffer read_callback next_callback unwatched w object
          ≡ some (u, true)
    unfolding remove_found notify_remove_entry
    remove_found-run w object e there watch done forgot planned =
        let test : (object == 0) ≡ false = ground (arith, there) in
        rw (test, watch, done, forgot, planned) refl

    -- The removal of a watch that is in the list and in the tables.
    remove_found-Removes :
        (p id : ℕ) (w : World) (path : List ℕ) (ys zs : List ℕ)
        → IsSound w (ys ++ (p ∷ zs))
        → w.watches (p + 16) ≡ some (record { id = id; path = path })
        → 0 < id
        → id < 2 ^ 31
        → unwatched w.notify.fd id ≡ true
        → Removes w ys zs p id path
            (remove_found chunk enter self buffer read_callback next_callback unwatched w (p + 16))
    unfolding set_notify set_watch
    remove_found-Removes p id w path ys zs sound watch pos small done =
        let (h, erased, held, gone, kept) =
          list_erase-HasItems w.heap w.notify.entries p ys zs false sound.items in
        let (r, by_id, ids, there) = mapi_erase-view sound.ids id pos false in
        let (s, by_path, paths, found) = maps_erase-view sound.paths path false in
        let v = removed_from w h r.0 s.0 (p + 16) in
        let a =
          plan_next-Calls chunk enter self buffer read_callback next_callback around v unwatched
            sound.ready in
        record {
          world = set_notify v (record v.notify { next = a.id }) a.reactor;
          ends =
              remove_found-run w (p + 16) (record { id = id; path = path })
                (λ e. absurd (omega arith)) watch done
                (forget-run w (p + 16) id path by_id by_path erased small) a.ends;
          sound = record { items = held; ids = ids; paths = paths; ready = a.ready };
          planned = a.planned;
          watch = set_here w.watches (p + 16) none;
          others = λ q n. set_other w.watches (p + 16) q none n;
          by_path = found;
          by_id = there;
        }

    -- `notify_remove_path` of the path of a watch that is in the list and in the tables, where the kernel
    -- lets go of its positive id: it succeeds; the watch is gone from the list, and its path and its id
    -- from the tables; the other paths, ids and watches stay; and a call of `notify_next` is due:
    -- if there was none, it was planned now, as the last of the planned calls.
    pub notify_remove_path-Removes :
        (p id : ℕ) (w : World) (path : List ℕ) (ys zs : List ℕ)
        → IsSound w (ys ++ (p ∷ zs))
        → Paths.view w.notify.paths path ≡ some (p + 16)
        → w.watches (p + 16) ≡ some (record { id = id; path = path })
        → 0 < id
        → id < 2 ^ 31
        → unwatched w.notify.fd id ≡ true
        → Removes w ys zs p id path (
            notify_remove_path chunk enter self buffer read_callback next_callback unwatched w path)
    unfolding notify_remove_path
    notify_remove_path-Removes p id w path ys zs sound there watch pos small done =
        let a = remove_found-Removes p id w path ys zs sound watch pos small done in
        let found = maps_at-view sound.paths path ∙ ap (λ o. some (value_or_zero o)) there in
        record {
          world = a.world;
          ends =
              ap
                (λ (o : Option ℕ).
                  o
                  >>= remove_found chunk enter self buffer read_callback next_callback unwatched w)
                found
              ∙ a.ends;
          sound = a.sound;
          planned = a.planned;
          watch = a.watch;
          others = a.others;
          by_path = a.by_path;
          by_id = a.by_id;
        }
