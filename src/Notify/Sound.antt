-- ===== src/Notify/Sound.antt =====
-- src/reactor/notify.c: what the requests and the planned calls leave of the watches.
use libreactor_refactor.Prelude.{
  ◌>>=◌, ℕ, Bool, true, false, Option, some, List, [], ◌∷◌, ◌++◌, ◌==◌, if◌then◌else◌, ◌≡◌, ◌≢◌,
  ◌⊎◌, refl, ap, ◌∙◌, arith, Bool-cases, inl, inr, bit_or,
}
use libreactor_refactor.Reactor.{Enter, Opcode}
use libreactor_refactor.Reactor.Ring.{newest}
use libreactor_refactor.Reactor.State.{Callback, Reactor, reactor_user_define}
use libreactor_refactor.Reactor.Files.{reactor_read}
use libreactor_refactor.Reactor.Ready.{IsReady, Surroundings, request-Answers, reactor_next-Plans}
use libreactor_refactor.List.Laws.{HasItems}
use libreactor_refactor.List.Clear.{no_items, list_empty-HasItems}
use libreactor_refactor.Map.Slots.{IsValid}
use libreactor_refactor.Mapi.{callbacks}
use libreactor_refactor.Maps.{Maps, maps_at, maps_insert, string_equal}
use libreactor_refactor.Maps as Strings
use libreactor_refactor.Notify.Defs.{plan_next, NotifyEntry, World, set_notify, ask, notify_update}

-- The list has these items, the tables are valid, and the reactor answers.
pub record IsSound (w : World) (xs : List ℕ) : Type 0 where
  pub items : HasItems w.heap w.notify.entries xs
  pub ids : IsValid ⦃cb = callbacks⦄ w.notify.ids
  pub paths : IsValid ⦃cb = Strings.callbacks⦄ w.notify.paths
  pub ready : IsReady w.reactor

module _ (chunk : ℕ → ℕ) (enter : Enter) (self buffer read_callback next_callback : ℕ)
    (around : Surroundings chunk enter) where
  -- In `v` a read of events is on its way. If there was none in `w`, the last entry of the ring asks
  -- for 4096 bytes of the descriptor, into the buffer, for a user with the callback of the structure;
  -- otherwise it is the one of before, and the reactor was left alone.
  abbrev pub IsReading : World → World → Type 0
  IsReading w v =
      (v.notify.read ≢ 0)
      × (((w.notify.read ≡ 0)
            × (newest v.reactor.ring
                ≡ some (record {
                  opcode = Opcode.read;
                  fd = w.notify.fd;
                  off = 0;
                  addr = buffer;
                  len = 4096;
                  op_flags = 0;
                  user_data = v.notify.read;
                }))
            × (v.reactor.user v.notify.read
                ≡ record { callback = Callback.client read_callback; state = self }))
          ⊎ ((v.notify.read ≡ w.notify.read) × (v.reactor ≡ w.reactor)))

  -- In `v` a call of `notify_next` is due. If none was in `w`, it is the last that is planned;
  -- otherwise it is the one of before, and the reactor was left alone.
  abbrev pub IsPlanned : World → World → Type 0
  IsPlanned w v =
      (v.notify.next ≢ 0)
      × (((w.notify.next ≡ 0)
            × ((address : ℕ) × (v.notify.next ≡ bit_or address 1)
                × (v.reactor.next ≡ w.reactor.next ++ (address ∷ []))
                × (v.reactor.user address
                    ≡ record { callback = Callback.client next_callback; state = self })))
          ⊎ ((v.notify.next ≡ w.notify.next) × (v.reactor ≡ w.reactor)))

  -- A run after which a read is on its way, and that changes nothing else but the reactor.
  pub record Asks (w : World) (run : Option World) : Type 0 where
    pub reactor : Reactor
    pub id : ℕ
    pub ends : run ≡ some (set_notify w (record w.notify { read = id }) reactor)
    pub ready : IsReady reactor
    pub reading : IsReading w (set_notify w (record w.notify { read = id }) reactor)

  ask-Asks :
      (w : World)
      → IsReady w.reactor
      → w.notify.read ≡ 0
      → Asks w (ask chunk enter self buffer read_callback next_callback w)
  unfolding ask reactor_read set_notify reactor_user_define
  ask-Asks w ready idle =
      let a =
        request-Answers chunk enter w.reactor (Callback.client read_callback) self _ around ready in
      record {
        reactor = a.final;
        id = a.id;
        ends =
            ap
              (λ (o : Option (Reactor × ℕ)).
                o >>= λ (r, id). some (set_notify w (record w.notify { read = id }) r))
              a.ends;
        ready = a.ready;
        reading = (a.nonzero, inl (idle, a.queued, a.known));
      }

  -- Where there is an item, `notify_update` sees to it that a read is asked for.
  pub notify_update-Asks :
      (w : World) (xs : List ℕ)
      → IsSound w xs
      → no_items xs ≡ false
      → Asks w (notify_update chunk enter self buffer read_callback next_callback w)
  unfolding notify_update
  notify_update-Asks w xs sound some_items =
      let test = list_empty-HasItems w.heap w.notify.entries xs sound.items ∙ ap some some_items in
      elim (Bool-cases (w.notify.read == 0)) [
        | inl idle ↦
            let a = ask-Asks w sound.ready (ground (arith, idle)) in
            record {
              reactor = a.reactor;
              id = a.id;
              ends = rw (test, idle) a.ends;
              ready = a.ready;
              reading = a.reading;
            }
        | inr busy ↦ record {
          reactor = w.reactor;
          id = w.notify.read;
          ends = rw (test, busy) (unfold set_notify in refl);
          ready = sound.ready;
          reading = unfold set_notify in (ground arith, inr (refl, refl));
        }
      ]

  -- A call for the next round is planned.
  pub record Calls (w : World) (run : Option World) : Type 0 where
    pub reactor : Reactor
    pub id : ℕ
    pub ends : run ≡ some (set_notify w (record w.notify { next = id }) reactor)
    pub ready : IsReady reactor
    pub planned : IsPlanned w (set_notify w (record w.notify { next = id }) reactor)

  pub plan_next-Calls :
      (w : World) (unwatched : ℕ → ℕ → Bool)
      → IsReady w.reactor
      → Calls w (plan_next chunk enter self buffer read_callback next_callback unwatched w)
  unfolding plan_next set_notify reactor_user_define
  plan_next-Calls w unwatched ready = elim (Bool-cases (w.notify.next == 0)) [
    | inl idle ↦
        let a =
          reactor_next-Plans chunk enter w.reactor (Callback.client next_callback) self around
            ready in
        record {
          reactor = a.final;
          id = bit_or a.address 1;
          ends = rw (idle, a.ends) refl;
          ready = a.ready;
          planned = (a.nonzero, inl (ground (arith, idle), (a.address, refl, a.planned, a.known)));
        }
    | inr due ↦ record {
      reactor = w.reactor;
      id = w.notify.next;
      ends = rw due refl;
      ready = ready;
      planned = (ground arith, inr (refl, refl));
    }
  ]

-- A function that is changed at one place.
pub set_here :
    (f : ℕ → Option NotifyEntry) (o : ℕ) (x : Option NotifyEntry) → (if o == o then x else f o) ≡ x
set_here f o x = let same : (o == o) ≡ true = ground arith in rw same refl

pub set_other :
    (f : ℕ → Option NotifyEntry) (o q : ℕ) (x : Option NotifyEntry)
    → q ≢ o
    → (if q == o then x else f q) ≡ f q
set_other f o q x n = let other : (q == o) ≡ false = ground (arith, n) in rw other refl
