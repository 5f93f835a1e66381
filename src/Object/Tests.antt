-- ===== src/Object/Tests.antt =====
-- An object that is held once more and released twice.
use libreactor_refactor.Prelude.{none, some, [], ◌∷◌, ◌++◌, ◌≡◌, arith}
use libreactor_refactor.Object.Defs.{object_create, destructors}
use libreactor_refactor.Object.Laws.{Action, Counted, run, object_create-destroyed}

object_create-destroyed_example :
    run
      ((Action.hold ∷ (Action.release ∷ [])) ++ (Action.release ∷ []))
      (some (object_create (some (some 7 ∷ [])) 1 0 (some 3)))
    ≡ some (none, destructors (some 3))
object_create-destroyed_example =
    object_create-destroyed (some (some 7 ∷ [])) 1 0 (some 3) (Action.hold ∷ (Action.release ∷ []))
      (Counted.held (omega arith) (Counted.dropped (omega arith) Counted.ended))
