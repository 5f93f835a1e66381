-- ===== src/Reactor/Ring.antt =====
-- The ring of submissions of src/reactor/reactor.c as a queue: what `reactor_ring_sqe` and the write
-- through its result do to the requests that the kernel has not taken yet.
use libreactor_refactor.Prelude.{
  ℕ, Option, ◌-◌, suc, ◌+◌, ◌%◌, ◌≤◌, ◌<◌, some, true, false, List, [], ◌∷◌, ◌++◌, get_elem?, set,
  length, bit_and, bit_and-mask, ◌==◌, if◌then◌else◌, ◌≡◌, refl, ap, ◌∙◌, arith, length-set,
  length-append, get_elem?-set_same, get_elem?-set_other,
}
use mathlib.Core.Path.{subst}
use native.Mathlib.Decide.{ℕ_discrete}
use libreactor_refactor.Words.{word32, add32, sub32}
use libreactor_refactor.Reactor.Defs.{
  Sqe, Ring, Enter, to_submit, entered, reactor_ring_flush, claim, reactor_ring_sqe, submit,
}

-- REACTOR_RING_SIZE
abbrev pub ring_size : ℕ
ring_size = 4096

-- From the position `h` on, the arrays hold these entries.
pub data Entries (array : List ℕ) (sqe : List Sqe) : ℕ → List Sqe → Type 0 where
  done : {h : ℕ} → Entries array sqe h []
  more :
      {h : ℕ} {e : Sqe} {es : List Sqe}
      → get_elem? array (h % ring_size) ≡ some (h % ring_size)
      → get_elem? sqe (h % ring_size) ≡ some e
      → Entries array sqe (add32 h 1) es
      → Entries array sqe h (e ∷ es)

-- The ring holds the requests `es`, in this order, for the kernel.
pub record Holds (r : Ring) (es : List Sqe) : Type 0 where
  pub size : r.size ≡ ring_size
  pub mask : r.sq_mask ≡ 4095
  pub sqes : length r.sqe ≡ ring_size
  pub array : length r.sq_array ≡ ring_size
  pub head : r.sq_head < word32
  pub tail : r.sq_tail ≡ (r.sq_head + length es) % word32
  pub count : length es ≤ ring_size
  pub entries : Entries r.sq_array r.sqe r.sq_head es

-- A kernel that takes all the submissions it is asked to take.
pub record Takes (enter : Enter) : Type 0 where
  pub number : (n : ℕ) (r : Ring) → (enter n r).1 ≡ n
  pub head : (r : Ring) → (enter (to_submit r) r).0.sq_head ≡ r.sq_tail
  pub tail : (n : ℕ) (r : Ring) → (enter n r).0.sq_tail ≡ r.sq_tail
  pub size : (n : ℕ) (r : Ring) → (enter n r).0.size ≡ r.size
  pub mask : (n : ℕ) (r : Ring) → (enter n r).0.sq_mask ≡ r.sq_mask
  pub sqes : (n : ℕ) (r : Ring) → length (enter n r).0.sqe ≡ length r.sqe
  pub array : (n : ℕ) (r : Ring) → length (enter n r).0.sq_array ≡ length r.sq_array

-- A write behind the last entry keeps the others.
Entries-put :
    (array : List ℕ) (sqe : List Sqe) (h : ℕ) (es : List Sqe) (e : Sqe) (i : ℕ)
    → Entries array sqe h es
    → h < word32
    → i ≡ (h + length es) % word32 % ring_size
    → length es < ring_size
    → i < length array
    → i < length sqe
    → Entries (set array i i) (set sqe i e) h (es ++ (e ∷ []))
unfolding add32
Entries-put array sqe h [] e i done hw at lt ia is =
    let here : i ≡ h % ring_size = omega arith in
    more
      (subst (λ (k : ℕ). get_elem? (set array i i) k ≡ some k) here
        (get_elem?-set_same array i i ia))
      (subst (λ (k : ℕ). get_elem? (set sqe i e) k ≡ some e) here (get_elem?-set_same sqe i e is))
      done
Entries-put array sqe h (x ∷ es) e i (more a s rest) hw at lt ia is =
    let other : i ≡ h % ring_size → ⊥ = λ same. absurd (omega (arith, same)) in
    more (get_elem?-set_other array i (h % ring_size) i other ∙ a)
      (get_elem?-set_other sqe i (h % ring_size) e other ∙ s)
      (Entries-put array sqe (add32 h 1) es e i rest (omega arith) (omega arith) (omega arith) ia
        is)

-- The requests that wait after `reactor_ring_flush`: it hands a full ring to the kernel.
abbrev pub flushed : List Sqe → List Sqe
flushed es = if length es == ring_size then [] else es

to_submit-Holds : (r : Ring) (es : List Sqe) → Holds r es → to_submit r ≡ length es
unfolding to_submit sub32
to_submit-Holds r es h = omega (arith, h.head, h.tail, h.count)

reactor_ring_flush-Holds :
    (enter : Enter) (r : Ring) (es : List Sqe)
    → Takes enter
    → Holds r es
    → (f : Ring) × (reactor_ring_flush enter r ≡ some f) × Holds f (flushed es)
unfolding reactor_ring_flush entered
reactor_ring_flush-Holds enter r es k h =
    let n = to_submit-Holds r es h in
    elim (ℕ_discrete (length es) ring_size) [
      | no part ↦
          let test : (to_submit r == r.size) ≡ false = ground (arith, n, h.size) in
          let stay : (length es == ring_size) ≡ false = ground arith in (r, rw test refl, rw stay h)
      | yes full ↦
          let test : (to_submit r == r.size) ≡ true = ground (arith, n, h.size) in
          let stay : (length es == ring_size) ≡ true = ground arith in
          let taken : ((enter (to_submit r) r).1 == to_submit r) ≡ true =
            ground (arith, k.number (to_submit r) r) in
          (
            (enter (to_submit r) r).0,
            rw (test, taken) refl,
            rw stay (record {
              size = k.size (to_submit r) r ∙ h.size;
              mask = k.mask (to_submit r) r ∙ h.mask;
              sqes = k.sqes (to_submit r) r ∙ h.sqes;
              array = k.array (to_submit r) r ∙ h.array;
              head = omega (arith, k.head r, h.tail);
              tail = omega (arith, k.head r, k.tail (to_submit r) r, h.tail);
              count = omega arith;
              entries = done;
            }),
          )
    ]

claimed-Holds :
    (r : Ring) (es : List Sqe) (e : Sqe)
    → Holds r es
    → length es < ring_size
    → Holds (record (claim r).0 { sqe = set (claim r).0.sqe (claim r).1 e }) (es ++ (e ∷ []))
unfolding claim add32
claimed-Holds r es e h lt =
    let i = bit_and r.sq_tail r.sq_mask in
    let place : i ≡ r.sq_tail % ring_size =
      ap (bit_and r.sq_tail) h.mask ∙ bit_and-mask 12 r.sq_tail in
    let longer : length (es ++ (e ∷ [])) ≡ suc (length es) =
      omega (arith, length-append es (e ∷ [])) in
    record {
      size = h.size;
      mask = h.mask;
      sqes = length-set r.sqe i e ∙ h.sqes;
      array = length-set r.sq_array i i ∙ h.array;
      head = h.head;
      tail = omega (arith, h.tail, longer, h.head);
      count = omega (arith, longer);
      entries =
          Entries-put r.sq_array r.sqe r.sq_head es e i h.entries h.head
            (omega (arith, place, h.tail)) lt (omega (arith, place, h.array))
            (omega (arith, place, h.sqes));
    }

-- With a kernel that takes what it is asked to take, a request that is written through the result
-- of `reactor_ring_sqe` stands behind all that wait: none is lost, overwritten or reordered. A ring
-- with 4096 waiting requests is handed to the kernel first.
pub submit-Holds :
    (enter : Enter) (r : Ring) (es : List Sqe) (e : Sqe)
    → Takes enter
    → Holds r es
    → (s : Ring) × (submit enter r e ≡ some s) × Holds s (flushed es ++ (e ∷ []))
unfolding submit reactor_ring_sqe
submit-Holds enter r es e k h =
    let (f, run, held) = reactor_ring_flush-Holds enter r es k h in
    let room : length (flushed es) < ring_size = space es h.count in
    (
      record (claim f).0 { sqe = set (claim f).0.sqe (claim f).1 e },
      rw run refl,
      claimed-Holds f (flushed es) e held room,
    )
  where
    space : (es : List Sqe) → length es ≤ ring_size → length (flushed es) < ring_size
    space es le = elim (ℕ_discrete (length es) ring_size) [
      | no part ↦
          let stay : (length es == ring_size) ≡ false = ground arith in rw stay (omega arith)
      | yes full ↦
          let stay : (length es == ring_size) ≡ true = ground arith in rw stay (omega arith)
    ]

-- The entry that was queued last: the one before the tail.
unfoldable pub newest : Ring → Option Sqe
newest r = get_elem? r.sqe (bit_and ((r.sq_tail + (word32 - 1)) % word32) r.sq_mask)

Entries-last :
    (array : List ℕ) (sqe : List Sqe) (h : ℕ) (es : List Sqe) (e : Sqe)
    → Entries array sqe h (es ++ (e ∷ []))
    → h < word32
    → get_elem? sqe ((h + length es) % word32 % ring_size) ≡ some e
unfolding add32
Entries-last array sqe h [] e (more a s rest) small =
    subst (λ (k : ℕ). get_elem? sqe k ≡ some e) (omega (arith, small)) s
Entries-last array sqe h (x ∷ es) e (more a s rest) small =
    subst (λ (k : ℕ). get_elem? sqe k ≡ some e) (omega (arith, small))
      (Entries-last array sqe (add32 h 1) es e rest (omega arith))

pub newest-Holds :
    (r : Ring) (es : List Sqe) (e : Sqe) → Holds r (es ++ (e ∷ [])) → newest r ≡ some e
unfolding newest
newest-Holds r es e h =
    let before = (r.sq_tail + (word32 - 1)) % word32 in
    let place : bit_and before r.sq_mask ≡ (r.sq_head + length es) % word32 % ring_size =
      ap (bit_and before) h.mask
      ∙ bit_and-mask 12 before
      ∙ omega (arith, h.tail, h.head, length-append es (e ∷ [])) in
    ap (get_elem? r.sqe) place ∙ Entries-last r.sq_array r.sqe r.sq_head es e h.entries h.head
