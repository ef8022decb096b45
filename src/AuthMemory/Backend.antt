-- ===== src/AuthMemory/Backend.antt =====
-- `MemoryAuthBackend`: its users, sessions, pending sign-ins, codes and who waits for access. What
-- the clock and the UUIDs say are arguments. An `i64` is its bit pattern, a number below 2^64.
use plexus_core.Base.{
  ℕ, Text, codes, Bool, true, false, Option, none, some, List, [], ◌∷◌, ◌++◌, if◌then◌else◌, ◌==◌,
  ◌+◌, ◌%◌, ltb, any, nat_eq, text_eq,
}
use plexus_core.Base.Word.{add64, u64_mod}
use plexus_core.Base.Assoc.{Assoc, lookup, insert, remove}
use plexus_core.Base.Texts.{strip_prefix}
use plexus_core.Errors.{Result, ok, err}

-- `<` of two `i64`s.
unfoldable pub lt_i64 : ℕ → ℕ → Bool
lt_i64 a b = ltb ((a + 9223372036854775808) % u64_mod) ((b + 9223372036854775808) % u64_mod)

pub data ProviderKind : Type 0 where
  browser_kind password_kind key_kind : ProviderKind

abbrev pub is_password : ProviderKind → Bool
is_password password_kind = true
is_password _ = false

pub record Provider : Type 0 where
  pub name : Text
  pub kind : ProviderKind
  pub label : Option Text

pub record User (P : Type 0) : Type 0 where
  pub password : Text
  pub principal : P
  pub name : Option Text

pub record SessionRec (P : Type 0) : Type 0 where
  pub id : Text
  pub principal : P
  pub name : Option Text
  pub agent : Option Text
  pub expires_at : ℕ
  pub layers : List (List Text)

pub record Code (P : Type 0) : Type 0 where
  pub state : Text
  pub principal : P
  pub name : Option Text
  pub issued : ℕ

pub record Waiting : Type 0 where
  pub principal : Text
  pub name : Option Text
  pub provider : Option Text
  pub since : ℕ

pub record State (P : Type 0) : Type 0 where
  pub users : Assoc Text (User P)
  pub sessions : Assoc Text (SessionRec P)
  pub pending : Assoc Text Text
  pub codes : Assoc Text (Code P)
  pub waiting : List Waiting

pub record Backend (P : Type 0) : Type 0 where
  pub login_url : Text
  pub providers : List Provider
  pub default_ttl : ℕ
  pub state : State P

-- A session as its client gets it.
pub record Session : Type 0 where
  pub token : Text
  pub principal : Text
  pub agent : Option Text
  pub name : Option Text
  pub expires_at : ℕ
  pub ceiling : List Text

-- The members of a session's metadata.
pub record Meta : Type 0 where
  pub name : Option Text
  pub agent : Option Text
  pub ceiling : Option (List (List Text))
  pub expires_at : ℕ

-- plexus-auth-core's principals, ceilings and sealed contexts.
pub record Identity (P Ctx : Type 0) : Type 0 where
  pub parse : Text → Result Text P
  pub show : P → Text
  pub parse_ceiling : List Text → Result Text (List Text)
  pub principal : Ctx → Option P
  pub session_id : Ctx → Text
  pub expires_at : Ctx → Option ℕ
  pub metadata_string : Ctx → Text → Option Text
  pub layers_of : Ctx → Result Text (List (List Text))
  pub for_principal : P → Text → Meta → Ctx

abbrev pub last_layer : List (List Text) → List Text
last_layer [] = []
last_layer (l ∷ []) = l
last_layer (l ∷ m ∷ ls) = last_layer (m ∷ ls)

abbrev pub or_else {ℓ} : {A : Type ℓ} → Option A → A → A
or_else none a = a
or_else (some x) a = x

-- Whether a URL has its query already.
abbrev pub separator : Text → Text
separator url = if any (λ c. c == b'?') url then codes "&" else codes "?"

abbrev pub new : {P : Type 0} → Text → Backend P
new login_url = record {
  login_url = login_url;
  providers =
      record {
        name = codes "browser";
        kind = browser_kind;
        label = some (codes "Sign in with the browser");
      }
      ∷ record { name = codes "key"; kind = key_kind; label = some (codes "An agent's key") }
      ∷ [];
  default_ttl = 43200;
  state = record { users = []; sessions = []; pending = []; codes = []; waiting = [] };
}

abbrev pub find_waiting : Text → List Waiting → Option Waiting
find_waiting text [] = none
find_waiting text (w ∷ ws) = if w.principal == text then some w else find_waiting text ws

module _ {P : Type 0} where
  -- `with_user`, its principal parsed.
  unfoldable pub with_user : Text → Text → P → Option Text → Backend P → Backend P
  unfolding insert
  with_user username password principal name b =
      let users =
        insert username (record { password = password; principal = principal; name = name })
          b.state.users in
      let added : Provider = record {
        name = codes "password";
        kind = password_kind;
        label = none;
      } in
      record b {
        state = record b.state { users = users };
        providers =
            if any (λ p. is_password p.kind) b.providers
            then b.providers
            else b.providers ++ (added ∷ []);
      }

  -- The sessions but those of an id.
  unfoldable pub without_id : Text → Assoc Text (SessionRec P) → Assoc Text (SessionRec P)
  without_id id [] = []
  without_id id ((t, rec) ∷ m) =
      let later = without_id id m in if rec.id == id then later else (t, rec) ∷ later

  unfoldable pub find_id : Text → Assoc Text (SessionRec P) → Option (SessionRec P)
  find_id id [] = none
  find_id id ((t, rec) ∷ m) = if rec.id == id then some rec else find_id id m

module _ {P Ctx : Type 0} (identity : Identity P Ctx) where
  -- The one-time code of a state, and where the browser goes back to; `uuid` makes the code.
  unfoldable pub complete_browser :
      (now : ℕ) (uuid state principal : Text)
      → Option Text
      → State P
      → State P × Result Text (Text × Text)
  unfolding lookup remove insert
  complete_browser now uuid state principal name st = elim (identity.parse principal) [
    | err e ↦ (st, err e)
    | ok who ↦ elim (lookup state st.pending) [
      | none ↦ (st, err (codes "no sign-in waits on this state"))
      | some redirect ↦
          let code = codes "c_" ++ uuid in
          let issued : Code P = record {
            state = state;
            principal = who;
            name = name;
            issued = now;
          } in
          (
            record st { pending = remove state st.pending; codes = insert code issued st.codes },
            ok (
              redirect
                  ++ (separator redirect
                      ++ (codes "code=" ++ (code ++ (codes "&state=" ++ state)))),
              code,
            ),
          )
    ]
  ]

  -- A session for a principal; the UUIDs make its token and its id.
  unfoldable pub mint :
      (default_ttl now : ℕ) (token_uuid id_uuid : Text)
      → P
      → (name agent : Option Text) → Option ℕ
      → List (List Text)
      → State P
      → State P × Session
  unfolding add64 insert
  mint default_ttl now token_uuid id_uuid who name agent ttl_secs layers st =
      let token = codes "mgs_" ++ token_uuid in
      let expires_at = add64 now (or_else ttl_secs default_ttl) in
      let rec : SessionRec P = record {
        id = codes "sess_" ++ id_uuid;
        principal = who;
        name = name;
        agent = agent;
        expires_at = expires_at;
        layers = layers;
      } in
      (
        record st { sessions = insert token rec st.sessions },
        record {
          token = token;
          principal = identity.show who;
          agent = agent;
          name = name;
          expires_at = expires_at;
          ceiling = last_layer layers;
        },
      )

  unfoldable pub context_of_rec : SessionRec P → Ctx
  context_of_rec rec =
      let ceiling : Option (List (List Text)) = elim rec.layers [
        | [] ↦ none
        | l ∷ ls ↦ some (l ∷ ls)
      ] in
      identity.for_principal rec.principal rec.id (record {
        name = rec.name;
        agent = rec.agent;
        ceiling = ceiling;
        expires_at = rec.expires_at;
      })

  -- The identity a token stands for, while it lasts.
  unfoldable pub context_of : (now : ℕ) (token : Text) → State P → Option Ctx
  unfolding lookup lt_i64 context_of_rec
  context_of now token st = elim (lookup token st.sessions) [
    | none ↦ none
    | some rec ↦ if lt_i64 now rec.expires_at then some (context_of_rec rec) else none
  ]

  unfoldable pub logout : Ctx → State P → State P
  unfolding without_id
  logout caller st = record st { sessions = without_id (identity.session_id caller) st.sessions }

  unfoldable pub session_alive : (now : ℕ) → Ctx → State P → Result Text (Unit {0})
  unfolding find_id lt_i64 strip_prefix
  session_alive now caller st =
      let id = identity.session_id caller in
      elim (strip_prefix (codes "sess_") id) [
        | none ↦ ok tt
        | some rest ↦ elim (find_id id st.sessions) [
          | none ↦ err (codes "you have signed out: sign in again")
          | some rec ↦
              if lt_i64 now rec.expires_at
              then ok tt
              else err (codes "your sign-in has expired: sign in again")
        ]
      ]
