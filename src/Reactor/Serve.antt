-- ===== src/Reactor/Serve.antt =====
-- src/reactor/reactor.c: the calls for the next round are made in the order in which they were planned.
use libreactor_refactor.Prelude.{
  ◌>>=◌, ℕ, zero, suc, true, false, Option, none, some, List, [], ◌∷◌, ◌++◌, length, drop,
  get_elem?, ltb, ◌≡◌, refl, sym, ap, ◌∙◌, arith, append-nil, append_assoc, length-append,
}
use mathlib.Core.Option.{some_inj}
use libreactor_refactor.Memory.Blocks.{drop-pieces}
use libreactor_refactor.Reactor.Defs.{Enter}
use libreactor_refactor.Reactor.State.{Callback, Event, Reactor, reactor_free_user}
use libreactor_refactor.Reactor.Loop.{called, reactor_call, run_next}

-- A callback may plan more calls, and takes back none.
abbrev pub OnlyPlans : (ℕ → Event → Reactor → Option Reactor) → Type 0
OnlyPlans clients =
    (n : ℕ) (e : Event) (r s : Reactor)
    → clients n e r ≡ some s
    → (more : List ℕ) × (s.next ≡ r.next ++ more)

bind_same :
    {A B : Type 0} (o : Option A) (f g : A → Option B)
    → ((x : A) → o ≡ some x → f x ≡ g x)
    → (o >>= f) ≡ (o >>= g)
bind_same none f g same = refl
bind_same (some x) f g same = same x refl

get_elem?-behind :
    {A : Type 0} (xs : List A) (y : A) (ys : List A)
    → get_elem? (xs ++ (y ∷ ys)) (length xs) ≡ some y
get_elem?-behind [] y ys = refl
get_elem?-behind (x ∷ xs) y ys = get_elem?-behind xs y ys

behind :
    (made queue : List ℕ) (a : ℕ) (now later planned : List ℕ)
    → now ≡ made ++ (a ∷ queue)
    → later ≡ now ++ planned
    → later ≡ (made ++ (a ∷ [])) ++ (queue ++ drop (length now) later)
behind made queue a now later planned e f =
    let new : drop (length now) later ≡ planned =
      ap (drop (length now)) f ∙ drop-pieces now planned in
    f
    ∙ ap (λ (l : List ℕ). l ++ planned) e
    ∙ join made queue planned
    ∙ ap (λ (l : List ℕ). (made ++ (a ∷ [])) ++ (queue ++ l)) (sym new)
  where
    join : (x y z : List ℕ) → (x ++ (a ∷ y)) ++ z ≡ (x ++ (a ∷ [])) ++ (y ++ z)
    join x y z = simp append_assoc

one_more : (made : List ℕ) (a : ℕ) → suc (length made) ≡ length (made ++ (a ∷ []))
one_more made a = omega (arith, length-append made (a ∷ []))

module _ (clients : ℕ → Event → Reactor → Option Reactor) (enter : Enter) where
  -- The calls as a queue: the first is made and its user is freed; those that it plans come last.
  unfoldable pub serve : ℕ → List ℕ → Reactor → Option Reactor
  unfolding reactor_call reactor_free_user
  serve zero queue r = none
  serve (suc fuel) [] r = some (record r { next = [] })
  serve (suc fuel) (a ∷ queue) r = reactor_call clients enter (r.user a) 0 0 r >>= λ s.
      serve fuel (queue ++ drop (length r.next) s.next) (reactor_free_user s a)

  module _ (plans : OnlyPlans clients) where
    called-plans :
        (c : Callback) (e : Event) (r s : Reactor)
        → called clients enter c e r ≡ some s
        → (more : List ℕ) × (s.next ≡ r.next ++ more)
    unfolding called
    called-plans Callback.null e r s run = absurd (cc)
    called-plans Callback.reactor_user_callback e r s run =
        ([], ap (λ (q : Reactor). q.next) (sym (some_inj.0 run)) ∙ sym (append-nil r.next))
    called-plans (Callback.client n) e r s run = plans n e r s run

    -- With the calls before `queue` made, the loop goes on as the queue does.
    run_next-from :
        (fuel : ℕ) (made queue : List ℕ) (r : Reactor)
        → r.next ≡ made ++ queue
        → run_next clients enter fuel (length made) r ≡ serve fuel queue r
    unfolding run_next serve reactor_call reactor_free_user
    run_next-from zero made queue r split = refl
    run_next-from (suc fuel) made [] r split =
        let last : ltb (length made) (length r.next) ≡ false =
          ground (arith, ap length (split ∙ append-nil made)) in
        rw last refl
    run_next-from (suc fuel) made (a ∷ queue) r split =
        let more : ltb (length made) (length r.next) ≡ true =
          ground (arith, ap length split, length-append made (a ∷ queue)) in
        let here : get_elem? r.next (length made) ≡ some a =
          ap (λ (l : List ℕ). get_elem? l (length made)) split ∙ get_elem?-behind made a queue in
        rw (more, here)
          (bind_same (reactor_call clients enter (r.user a) 0 0 r) _ _ (λ s run.
            (let (planned, next) = called-plans (r.user a).callback _ r s run in
              ap (λ (i : ℕ). run_next clients enter fuel i (reactor_free_user s a))
                (one_more made a)
              ∙ run_next-from fuel (made ++ (a ∷ [])) (queue ++ drop (length r.next) s.next)
                  (reactor_free_user s a) (behind made queue a r.next s.next planned split next))))

    -- The loop over the planned calls makes each once, the first planned first, those that a callback
    -- plans behind the others in the same round, and leaves none.
    pub run_next-serve :
        (fuel : ℕ) (r : Reactor) → run_next clients enter fuel 0 r ≡ serve fuel r.next r
    run_next-serve fuel r = run_next-from fuel [] r.next r refl
