-- ===== src/Auth.antt =====
-- What the service uses of plexus-auth-core: a caller's sealed context, and the grant gate. Both
-- are parameters of the model, as records of the operations that are called.
use plexus_core.Base.{ℕ, Text, Option, List, Bool}
use plexus_core.Errors.{Result}

-- AuthContext: who calls. `principal` is the principal's text.
pub record AuthOps (A : Type 0) : Type 0 where
  pub is_authenticated : A → Bool
  pub roles : A → List Text
  pub user_id : A → Text
  pub session_id : A → Text
  pub principal : A → Option Text

-- grants::Refusal
pub data Refusal : Type 0 where
  unauthenticated : Refusal
  missing_grant : (grant scope : Text) (roles held_on : List Text) → Refusal
  ended : (reason : Text) → Refusal

-- grants::Gate as it decides at one moment: its generation counts the moves of the grants.
pub record Gate (A Reach : Type 0) : Type 0 where
  pub generation : ℕ
  pub check : Option A → Text → Option Text → Result Refusal Reach
  pub reach_of_public : Option A → Text → Reach
  pub alive : A → Result Text (Unit {0})
