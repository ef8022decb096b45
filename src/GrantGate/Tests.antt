-- ===== src/GrantGate/Tests.antt =====
-- The grant gate of a service `ring` at concrete calls.
use plexus_core.Base.{Text, codes, true, false, Option, none, some, [], ◌≡◌, refl, ◌≢◌, inr}
use plexus_core.Errors.{PlexusError, Result, ok, err}
use plexus_core.Auth.{AuthOps, Gate, Refusal}
use plexus_core.Json.{get, Value, Members}
use plexus_core.GrantGate.{MethodGateInfo, Admit, reach, open_, decide, is_introspection, standing}
use plexus_core.Json.{Items}
use plexus_core.GrantGate.Laws.{Passes, decide-Passes}

-- A caller is known by name.
abbrev ops : AuthOps Text
ops = record {
  is_authenticated = λ _. true;
  roles = λ _. [];
  user_id = λ a. a;
  session_id = λ _. [];
  principal = λ a. some a;
}

-- Ada holds everything; anyone else's sign-in has ended.
abbrev gate : Gate Text (Unit {0})
gate = record {
  generation = 0;
  check = check_name;
  reach_of_public = λ _ _. tt;
  alive = λ _. err (codes "expired");
}
  where
    check_name : Option Text → Text → Option Text → Result Refusal (Unit {0})
    check_name none grant target = err Refusal.unauthenticated
    check_name (some a) grant target = ok tt

abbrev info : MethodGateInfo
info = record { public = false; scopes = []; grant = none; target = some (codes "run") }

abbrev params : Value
params = Value.object (Members.member (codes "run") (Value.string (codes "r1")) Members.end)

abbrev decided : Result PlexusError (Admit (Unit {0}))
decided =
    decide ops gate (codes "ring") (codes "ring.start") (some info) params (some (codes "ada")) []

admitted : decided ≡ ok (reach tt)
unfolding decide get
admitted = refl

anonymous :
    decide ops gate (codes "ring") (codes "ring.start") (some info) params none []
    ≡ err (PlexusError.unauthenticated (codes "sign in first: this method is not public"))
unfolding decide get
anonymous = refl

not_introspection : is_introspection (codes "ring") (codes "ring.start") ≡ false
unfolding is_introspection
not_introspection = refl

named : get (codes "run") params ≡ some (Value.string (codes "r1"))
unfolding get
named = refl

decide-Passes_example :
    Passes gate (some (codes "ada")) (codes "ring.start") (some (codes "r1")) × (reach tt ≢ open_)
decide-Passes_example =
    decide-Passes ops gate (codes "ring") (codes "ring.start") (some info) params
      (some (codes "ada")) [] (reach tt) (codes "ring.start") (some (codes "r1")) not_introspection
      refl (inr (refl, refl)) tt (codes "run", Value.string (codes "r1"), refl, named, refl)
      admitted

ended : standing gate (some (codes "bob")) ≡ (none, some (codes "expired"))
unfolding standing
ended = refl

abbrev runs : Items
runs = Items.cons (Value.string (codes "r1")) (Items.cons (Value.number (codes "2")) Items.nil)

abbrev many : Value
many = Value.object (Members.member (codes "run") (Value.array runs) Members.end)
