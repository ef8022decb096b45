-- ===== src/AuthMemory/Tests.antt =====
-- The in-memory backend at concrete sign-ins.
use plexus_core.Base.{
  ◌+◌, Text, codes, false, Option, none, some, List, [], ◌∷◌, ◌++◌, ◌≡◌, ◌≢◌, refl, arith, ◌==◌,
  ◌≤◌, max, if◌then◌else◌, nat_eq, text_eq, if_true, if_false, beq_self, eq_of_beq, Bool-cases, inl,
  inr,
}
use plexus_core.Base.Word.{add64, sub64}
use plexus_core.Base.Assoc.{lookup}
use plexus_core.Errors.{ok, err}
use plexus_core.AuthMemory.Roles.{RoleTable}
use plexus_core.AuthMemory.Memberships.{Membership}
use plexus_core.AuthMemory.Backend.{
  lt_i64, Backend, Session, SessionRec, Identity, Meta, Code, mint,
}
use plexus_core.AuthMemory.Flows.{
  signed_in, Uuids, login_code, login_session, mint_answer, redeem, code_ttl_secs,
}
use plexus_core.AuthMemory.Tokens.{token_in}
use plexus_core.AuthMemory.Laws.{login_code-once, login_code_sound}
use plexus_core.AuthMemory.Derived.{login_session-within}

-- A context as its three parts.
record Ctx : Type 0 where
  who : Text
  id : Text
  meta : Meta

abbrev layers_of : Option (List (List Text)) → List (List Text)
layers_of none = []
layers_of (some ls) = ls

abbrev identity : Identity Text Ctx
identity = record {
  parse = λ s. ok s;
  show = λ s. s;
  parse_ceiling = λ es. ok es;
  principal = λ c. some c.who;
  session_id = λ c. c.id;
  expires_at = λ c. some c.meta.expires_at;
  metadata_string = λ c k. if k == codes "name" then c.meta.name else c.meta.agent;
  layers_of = λ c. ok (layers_of c.meta.ceiling);
  for_principal = λ p i m. record { who = p; id = i; meta = m };
}

abbrev uuids : Uuids
uuids = record { first = codes "1"; second = codes "2" }

abbrev alice : Text
alice = codes "key:alice"

abbrev issued : Code Text
issued = record { state = codes "s_1"; principal = alice; name = none; issued = 1000 }

abbrev backend : Backend Text
backend = record {
  login_url = codes "http://127.0.0.1:4456/login";
  providers = [];
  default_ttl = 43200;
  state = record {
    users = [];
    sessions = [];
    pending = [];
    codes = (codes "c_1", issued) ∷ [];
    waiting = [];
  };
}

abbrev on_session : Ctx
on_session = record {
  who = alice;
  id = codes "sess_9";
  meta = record {
    name = none;
    agent = none;
    ceiling = some ((codes "reader@alpha" ∷ []) ∷ []);
    expires_at = 2000;
  };
}

abbrev by_code : Session
by_code = record {
  token = codes "mgs_1";
  principal = alice;
  agent = none;
  name = none;
  expires_at = 44230;
  ceiling = [];
}

-- The clock has moved on between the two readings: the session outlives the one it was asked on.
abbrev derived : Session
derived = record {
  token = codes "mgs_1";
  principal = alice;
  agent = none;
  name = none;
  expires_at = 2001;
  ceiling = codes "reader@alpha" ∷ [];
}

token_in_cookie : token_in (codes " theme=dark; access_token=mgs_1") ≡ some (codes "mgs_1")
unfolding token_in
token_in_cookie = refl

token_in_bearer : token_in (codes "Bearer mgs_1 ") ≡ some (codes "mgs_1")
unfolding token_in
token_in_bearer = refl

code_runs :
    (login_code identity 1030 1030 uuids (codes "c_1") (codes "s_1") backend).1
    ≡ ok (signed_in by_code)
unfolding login_code redeem mint_answer mint lookup add64 sub64 lt_i64
code_runs = refl

login_code-once_example :
    (login_code identity 1031 1031 uuids
      (codes "c_1")
      (codes "s_1")
      (login_code identity 1030 1030 uuids (codes "c_1") (codes "s_1") backend).0).1
    ≡ err (codes "the code is not good (used, or never issued)")
login_code-once_example =
    login_code-once identity 1030 1030 1031 1031 uuids uuids (codes "c_1") (codes "s_1")
      (codes "s_1") backend

login_code_sound_example :
    (c : Code Text) × (lookup (codes "c_1") backend.state.codes ≡ some c)
    × (c.state ≡ codes "s_1")
    × (lt_i64 code_ttl_secs (sub64 1030 c.issued) ≡ false)
    × (alice ≡ c.principal)
    × (by_code.ceiling ≡ [])
login_code_sound_example =
    login_code_sound identity 1030 1030 uuids (codes "c_1") (codes "s_1") backend by_code code_runs

derived_runs :
    (login_session identity 1030 1031 uuids (some on_session) none none backend).1
    ≡ ok (signed_in derived)
unfolding login_session mint_answer mint add64 sub64
derived_runs = refl

login_session-within_example :
    (rec : SessionRec Text) × (held more : List (List Text)) × (lookup
        (codes "mgs_1")
        (login_session identity 1030 1031 uuids
          (some on_session)
          none
          none
          backend).0.state.sessions
      ≡ some rec)
    × (some alice ≡ some rec.principal)
    × (identity.layers_of on_session ≡ ok held)
    × (rec.layers ≡ held ++ more)
    × (rec.expires_at + 1030 ≤ max 2000 1030 + 1031)
login_session-within_example =
    login_session-within identity 1030 1031 2000 uuids on_session none none backend derived refl
      (omega arith) (omega arith) (omega arith) derived_runs

abbrev rows : List (Membership Text Text)
rows =
    record { principal = alice; role = codes "reader"; scope = codes "*" }
    ∷ record { principal = alice; role = codes "writer"; scope = codes "alpha" }
    ∷ []

abbrev writer : Membership Text Text
writer = record { principal = alice; role = codes "writer"; scope = codes "alpha" }

-- A table as the function that it is, its names beside it.
abbrev Table : Type 0
Table = List Text × (Text → Option (List Text))

abbrev set_role : Table → Text → List Text → Table
set_role (names, f) role gs = (role ∷ names, λ r. if role == r then some gs else f r)

differ : (r s : Text) → r ≢ s → (r == s) ≡ false
differ r s ne = elim (Bool-cases (r == s)) [
  | inl same ↦ absurd (ne (eq_of_beq r s same))
  | inr other ↦ other
]

abbrev roles : RoleTable Table (List Text)
roles = record {
  grants = λ t r. t.1 r;
  names = λ t. t.0;
  set = set_role;
  listed = λ gs. gs;
  grants-set = λ t r g. if_true (r == r) (some g) (t.1 r) (beq_self r);
  grants-set_ne = λ t r s g ne. if_false (r == s) (some g) (t.1 s) (differ r s ne);
}

abbrev edited : Table
edited = (codes "reader" ∷ [], λ r. some (codes "edited" ∷ []))
