-- ===== src/Object/Laws.antt =====
-- src/reactor/object.c: the object lives just as long as it is referred to.
use libreactor_refactor.Prelude.{
  ◌>>=◌, ℕ, zero, suc, ◌<◌, Option, none, some, false, List, [], ◌∷◌, ◌++◌, ◌==◌, ◌≡◌, refl, ap,
  ◌∙◌, arith, append-nil,
}
use libreactor_refactor.Words.{word, sub64, add64-eq, sub64-eq}
use libreactor_refactor.Memory.{Memory}
use libreactor_refactor.Object.Defs.{
  Header, object_create, object_hold, object_release, destructors,
}

pub data Action : Type 0 where
  hold : Action
  release : Action

-- The actions lead from `n` references to `m`, with one left at every point.
pub data Counted : ℕ → List Action → ℕ → Type 0 where
  ended : {n : ℕ} → Counted n [] n
  held :
      {n m : ℕ} {acts : List Action}
      → suc n < word
      → Counted (suc n) acts m
      → Counted n (Action.hold ∷ acts) m
  dropped :
      {n m : ℕ} {acts : List Action}
      → 0 < n
      → Counted n acts m
      → Counted (suc n) (Action.release ∷ acts) m

-- The actions on an object, one after the other, and the destructors that they call. An action on
-- a freed object fails.
unfoldable pub run : List Action → Option Header → Option (Option Header × List ℕ)
unfolding object_hold object_release
run [] s = some (s, [])
run (a ∷ acts) none = none
run (Action.hold ∷ acts) (some h) = run acts (some (object_hold h))
run (Action.release ∷ acts) (some h) = do
  (s, called) ← run acts (object_release h).0
  some (s, (object_release h).1 ++ called)

run-destroyed :
    (acts : List Action) (h : Header) (n : ℕ)
    → h.references ≡ n
    → 0 < n
    → n < word
    → Counted n acts 1
    → run (acts ++ (Action.release ∷ [])) (some h) ≡ some (none, destructors h.destroy)
unfolding run object_hold object_release
run-destroyed [] h n e pos small Counted.ended =
    let left : sub64 h.references 1 ≡ 0 =
      sub64-eq h.references 1 (omega arith) (omega arith) ∙ omega arith in
    rw left (ap (λ (l : List ℕ). some (none, l)) (append-nil (destructors h.destroy)))
run-destroyed (Action.hold ∷ acts) h n e pos small (Counted.held fits c) =
    run-destroyed acts (object_hold h) (suc n) (add64-eq h.references 1 (omega arith) ∙ omega arith)
      (omega arith) fits c
run-destroyed (Action.release ∷ acts) h zero e pos small c = absurd (omega arith)
run-destroyed (Action.release ∷ acts) h (suc n) e pos small (Counted.dropped left c) =
    let less : sub64 h.references 1 ≡ n =
      sub64-eq h.references 1 (omega arith) (omega arith) ∙ omega arith in
    let rest = run-destroyed acts (record h { references = n }) n refl left (omega arith) c in
    let test : (n == 0) ≡ false = ground arith in rw (less, test, rest) refl

-- After actions that leave one reference, and one at every point, on a new object, the next release
-- frees the object, and its destructor is called then and only then.
pub object_create-destroyed :
    (base : Option Memory) (size value : ℕ) (destroy : Option ℕ) (acts : List Action)
    → Counted 1 acts 1
    → run (acts ++ (Action.release ∷ [])) (some (object_create base size value destroy))
      ≡ some (none, destructors destroy)
unfolding object_create
object_create-destroyed base size value destroy acts c =
    run-destroyed acts (object_create base size value destroy) 1 refl (omega arith) (omega arith) c
