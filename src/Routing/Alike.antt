-- ===== src/Routing/Alike.antt =====
-- What of its caller a child sees.
use plexus_core.Base.{Text, Option, none, some, ◌≡◌}
use plexus_core.Routing.{Forwarding, ChildRouter, Router}
use plexus_core.Routing.Laws.{IsHanded}

module _ {A X V R : Type 0} (fw : Forwarding A X) (parent : Router A X V R) (auth : Option A)
    (ctx : Option X) where
  -- Two children of this name answer alike whatever is asked of them as what they are handed for this
  -- caller.
  abbrev pub AnswerAlike : (name : Text) → (a b : Option (ChildRouter A X V R)) → Type 0
  AnswerAlike name none none = Unit
  AnswerAlike name (some f) (some g) =
      (rest : Text) (params : V) (callee : Option A) (inner : Option X)
      → IsHanded fw parent auth ctx name rest callee inner
      → f inner rest params callee ≡ g inner rest params callee
  AnswerAlike name _ _ = ⊥
