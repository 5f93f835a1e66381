-- ===== src/Notify/Each.antt =====
-- src/reactor/notify.c: `notify_read` reports the events of the buffer one by one.
use libreactor_refactor.Prelude.{
  ◌>>=◌, ℕ, zero, suc, ◌+◌, ◌/◌, ◌%◌, ◌^◌, ◌≤◌, ◌<◌, Bool, true, false, Option, none, some, List,
  [], ◌∷◌, ◌++◌, length, ltb, leb, if◌then◌else◌, ◌≡◌, refl, sym, ap, ◌∙◌, arith, append_assoc,
  length-append,
}
use libreactor_refactor.Memory.Blocks.{drop-pieces}
use libreactor_refactor.Hash.{fetch32, fetch, little_endian}
use libreactor_refactor.Reactor.{Enter}
use libreactor_refactor.Notify.Defs.{World, notify_update}
use libreactor_refactor.Notify.Events.{InotifyEvent, event_at, Handler, read_from, notify_read}
use libreactor_refactor.Notify.Told.{
  Written, header, IsIndexed, Keeps, tell, report-tell, tell-Keeps,
}

-- The four bytes of a number, the lowest first.
abbrev pub four_bytes : ℕ → List ℕ
four_bytes x = x % 256 ∷ x / 256 % 256 ∷ x / 65536 % 256 ∷ x / 16777216 % 256 ∷ []

-- What the kernel writes for some events.
unfoldable pub written : List Written → List ℕ
written [] = []
written (e ∷ es) =
    four_bytes e.wd
    ++ (four_bytes e.mask
        ++ (four_bytes e.cookie ++ (four_bytes (length e.name) ++ (e.name ++ written es))))

-- The numbers are of 32 bits, and the ids above 0.
abbrev pub InBounds : List Written → Type 0
InBounds [] = Unit
InBounds (e ∷ es) =
    (0 < e.wd) × (e.wd < 2 ^ 32) × (e.mask < 2 ^ 32) × (length e.name < 2 ^ 32) × InBounds es

-- The user is told of the events one by one, with their offsets, until the flag is set.
unfoldable pub report_each : Handler → List Written → ℕ → World → Option (World × Bool)
unfolding tell
report_each handle [] p w = some (w, false)
report_each handle (e ∷ es) p w = do
  (v, aborted) ← tell handle e p w
  let rest = report_each handle es (p + 16 + length e.name) v
  if aborted then some (v, true) else rest

fetch32-at :
    (a : List ℕ) (x : ℕ) (b : List ℕ)
    → x < 2 ^ 32
    → fetch32 (a ++ (four_bytes x ++ b)) (length a) ≡ some x
unfolding fetch32 fetch little_endian
fetch32-at a x b small =
    let inside : leb (length a + 4) (length (a ++ (four_bytes x ++ b))) ≡ true =
      ground (arith, length-append a (four_bytes x ++ b)) in
    rw (inside, drop-pieces a (four_bytes x ++ b)) (ap some (omega arith))

-- As before, at an offset that is so much further.
fetch32-behind :
    (a c : List ℕ) (x n : ℕ) (b : List ℕ)
    → x < 2 ^ 32
    → n ≡ length c
    → fetch32 (a ++ (c ++ (four_bytes x ++ b))) (length a + n) ≡ some x
fetch32-behind a c x n b small e =
    ap (fetch32 (a ++ (c ++ (four_bytes x ++ b)))) (omega (arith, e, length-append a c))
    ∙ ap (λ (l : List ℕ). fetch32 l (length (a ++ c))) (sym (append_assoc a c (four_bytes x ++ b)))
    ∙ fetch32-at (a ++ c) x b small

event_at-written :
    (a : List ℕ) (e : Written) (es : List Written) (b : List ℕ)
    → InBounds (e ∷ es)
    → event_at (a ++ (written (e ∷ es) ++ b)) (length a) ≡ some (header e)
unfolding event_at written
event_at-written a e es b (pos, wd, mask, len, more) =
    let name = e.name ++ (written es ++ b) in
    let lens = four_bytes (length e.name) ++ name in
    let masks = four_bytes e.mask ++ (four_bytes e.cookie ++ lens) in
    let fourth =
      fetch32-behind a (four_bytes e.wd ++ (four_bytes e.mask ++ four_bytes e.cookie))
        (length e.name) 12 name len refl in
    rw
      (
        append_assoc e.name (written es) b,
        fetch32-at a e.wd masks wd,
        fetch32-behind a (four_bytes e.wd) e.mask 4 (four_bytes e.cookie ++ lens) mask refl,
        fourth,
      )
      refl

-- The bytes of one event.
abbrev one : Written → List ℕ
one e =
    four_bytes e.wd
    ++ (four_bytes e.mask ++ (four_bytes e.cookie ++ (four_bytes (length e.name) ++ e.name)))

length-one : (a : List ℕ) (e : Written) → length a + 16 + length e.name ≡ length (a ++ one e)
length-one a e = omega (arith, length-append a (one e))

written-one :
    (a : List ℕ) (e : Written) (es : List Written)
    → a ++ written (e ∷ es) ≡ (a ++ one e) ++ written es
unfolding written
written-one a e es = simp append_assoc

length-written :
    (a : List ℕ) (e : Written) (es : List Written) → length a < length (a ++ written (e ∷ es))
unfolding written
length-written a e es = omega (arith, length-append a (written (e ∷ es)))

module _ (handle : Handler) (keeps : Keeps handle) where
  -- The rest of a round, after the report of an event.
  round_same :
      (o : Option (World × Bool)) (f g : World → Option (World × Bool))
      → ((v : World) → o ≡ some (v, false) → f v ≡ g v)
      → (o >>= λ (v, aborted). if aborted then some (v, true) else f v)
        ≡ (o >>= λ (v, aborted). if aborted then some (v, true) else g v)
  round_same none f g same = refl
  round_same (some (v, true)) f g same = refl
  round_same (some (v, false)) f g same = same v refl

  -- The loop from the offset behind `a` on.
  read_from-each :
      (fuel : ℕ) (a : List ℕ) (es : List Written) (b : List ℕ) (w : World)
      → w.notify.buffer ≡ a ++ (written es ++ b)
      → IsIndexed w
      → InBounds es
      → length es < fuel
      → read_from handle fuel (length a) (length (a ++ written es)) w
        ≡ report_each handle es (length a) w
  unfolding read_from report_each written
  read_from-each zero a es b w bytes indexed bounds enough = absurd (omega arith)
  read_from-each (suc fuel) a [] b w bytes indexed bounds enough =
      let over : ltb (length a) (length (a ++ [])) ≡ false =
        ground (arith, length-append {A = ℕ} a []) in
      rw over refl
  read_from-each (suc fuel) a (e ∷ es) b w bytes indexed bounds enough =
      let inside : ltb (length a) (length (a ++ written (e ∷ es))) ≡ true =
        ground (arith, length-written a e es) in
      let here : event_at w.notify.buffer (length a) ≡ some (header e) =
        ap (λ (m : List ℕ). event_at m (length a)) bytes ∙ event_at-written a e es b bounds in
      rw (inside, here, report-tell handle e (length a) w indexed bounds.0 bounds.1)
        (round_same (tell handle e (length a) w) _ _ λ v run.
          (let (kept, still) = tell-Keeps handle keeps e (length a) w v indexed run in
            let again : event_at v.notify.buffer (length a) ≡ some (header e) =
              ap (λ (m : List ℕ). event_at m (length a)) kept ∙ here in
            let split =
              kept
              ∙ bytes
              ∙ sym (append_assoc a (written (e ∷ es)) b)
              ∙ ap (λ (l : List ℕ). l ++ b) (written-one a e es)
              ∙ append_assoc (a ++ one e) (written es) b in
            ap
              (λ (o : Option InotifyEvent). o >>= λ j.
                read_from handle fuel (length a + 16 + j.len) (length (a ++ written (e ∷ es))) v)
              again
            ∙ ap (λ (n : ℕ). read_from handle fuel n (length (a ++ written (e ∷ es))) v)
                (length-one a e)
            ∙ ap (λ (l : List ℕ). read_from handle fuel (length (a ++ one e)) (length l) v)
                (written-one a e es)
            ∙ read_from-each fuel (a ++ one e) es b v split still bounds.4 (omega (arith, enough))
            ∙ ap (λ (n : ℕ). report_each handle es n v) (sym (length-one a e))))

  count-written : (es : List Written) → length es ≤ length (written es)
  unfolding written
  count-written [] = omega arith
  count-written (e ∷ es) = omega (arith, count-written es, length-append e.name (written es))

  -- `notify_read` of some events of the kernel, of less than 2 ^ 31 bytes, with numbers of 32 bits and ids
  -- above 0, where each object of the valid table of ids is a watch, and a call of the user that does not
  -- close the structure keeps this and leaves the buffer: for each event whose id leads to a watch, and
  -- for no other, the user is called with the mask of the event, the id and the path of the watch, and
  -- where the name is in the buffer, if there is one; this in the order of the events, until the
  -- structure is closed; if it is not, `notify_update` is called in the end.
  pub notify_read-each :
      (chunk : ℕ → ℕ) (enter : Enter) (self buffer read_callback next_callback : ℕ)
      (es : List Written) (b : List ℕ) (w : World)
      → w.notify.buffer ≡ written es ++ b
      → IsIndexed w
      → InBounds es
      → length (written es) < 2 ^ 31
      → notify_read chunk enter self buffer read_callback next_callback handle w
          (length (written es))
        ≡ (do
          (v, aborted) ←
              report_each handle es 0
                (record w { notify = record w.notify { read = 0; abort = true } })
          let updated =
              notify_update chunk enter self buffer read_callback next_callback
                (record v { notify = record v.notify { abort = false } })
          if aborted then some v else updated)
  unfolding notify_read
  notify_read-each chunk enter self buffer read_callback next_callback es b w bytes indexed bounds
        small =
      let positive : ltb (length (written es)) (2 ^ 31) ≡ true = ground (arith, small) in
      let start = record w { notify = record w.notify { read = 0; abort = true } } in
      let loop =
        read_from-each (suc (length (written es))) [] es b start bytes
          (record { valid = indexed.valid; watched = indexed.watched }) bounds
          (omega (arith, count-written es)) in
      rw (positive, loop) refl
