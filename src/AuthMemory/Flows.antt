-- ===== src/AuthMemory/Flows.antt =====
-- `login`, `signup` and `ask_access` of `MemoryAuthBackend`. The kinds of failure are their texts.
use plexus_core.Base.{
  ℕ, Text, codes, Bool, true, false, not, Option, none, some, List, [], ◌∷◌, ◌++◌, if◌then◌else◌,
  ◌==◌, ltb, any, min, text_eq, nat_eq,
}
use plexus_core.Base.Word.{sub64}
use plexus_core.Base.Assoc.{lookup, insert, remove}
use plexus_core.Base.Texts.{strip_prefix, split_once}
use plexus_core.Errors.{Result, ok, err}
use plexus_core.AuthMemory.Backend.{
  lt_i64, State, Backend, Session, Identity, Waiting, Code, or_else, separator, mint, find_waiting,
}

pub data LoginFlow : Type 0 where
  browser : (redirect : Text) → LoginFlow
  code : (code_text state : Text) → LoginFlow
  password : (username secret : Text) → LoginFlow
  session : (ttl_secs : Option ℕ) (ceiling : Option (List Text)) → LoginFlow

pub data LoginAnswer : Type 0 where
  login_url : (url state : Text) → LoginAnswer
  signed_in : Session → LoginAnswer

-- What the UUIDs of a call are, in the order they are asked for.
pub record Uuids : Type 0 where
  pub first : Text
  pub second : Text

abbrev pub starts_with : Text → Text → Bool
starts_with pat s = elim (strip_prefix pat s) [ none ↦ false | some r ↦ true ]

abbrev pub loopback : List Text
loopback = codes "http://127.0.0.1:" ∷ codes "http://localhost:" ∷ codes "http://[::1]:" ∷ []

abbrev pub code_ttl_secs : ℕ
code_ttl_secs = 60

-- `(end - now).max(0) as u64`
unfoldable pub time_left : (end now : ℕ) → ℕ
unfolding sub64
time_left end now = let left = sub64 end now in if ltb left 9223372036854775808 then left else 0

abbrev pub needs_someone : Text
needs_someone = codes "a session needs a connection that is someone"

-- Never past the end of the session it was asked on.
unfoldable pub bounded_ttl : (now default_ttl : ℕ) → Option ℕ → Option ℕ → Option ℕ
unfolding time_left
bounded_ttl now default_ttl none ttl_secs = ttl_secs
bounded_ttl now default_ttl (some end) ttl_secs =
    some (min (or_else ttl_secs default_ttl) (time_left end now))

module _ {P Ctx : Type 0} (identity : Identity P Ctx) where
  -- The caller's layers, and the one asked for where it is not empty.
  unfoldable pub layers_with :
      List (List Text) → Option (List Text) → Result Text (List (List Text))
  layers_with layers none = ok layers
  layers_with layers (some []) = ok layers
  layers_with layers (some (e ∷ es)) = elim (identity.parse_ceiling (e ∷ es)) [
    | err why ↦ err why
    | ok parsed ↦ ok (layers ++ (parsed ∷ []))
  ]

module _ {P Ctx : Type 0} (identity : Identity P Ctx) (now : ℕ) (uuids : Uuids) where
  unfoldable pub login_browser : Text → Backend P → Backend P × Result Text LoginAnswer
  unfolding insert
  login_browser redirect b =
      let state = codes "s_" ++ uuids.first in
      let pending = insert state redirect b.state.pending in
      let url = b.login_url ++ (separator b.login_url ++ (codes "cli=1&state=" ++ state)) in
      if any (λ p. starts_with p redirect) loopback
      then (record b { state = record b.state { pending = pending } }, ok (login_url url state))
      else (b, err (codes "the redirect must be a loopback address (http://127.0.0.1:PORT/…)"))

  -- A session minted, as a login's answer.
  unfoldable pub mint_answer :
      P
      → (name agent : Option Text) → Option ℕ
      → List (List Text)
      → Backend P
      → Backend P × Result Text LoginAnswer
  unfolding mint
  mint_answer who name agent ttl layers b =
      let (st, s) =
        mint identity b.default_ttl now uuids.first uuids.second who name agent ttl layers
          b.state in
      (record b { state = st }, ok (signed_in s))

  unfoldable pub login_password :
      (username secret : Text) → Backend P → Backend P × Result Text LoginAnswer
  unfolding lookup mint_answer
  login_password username secret b = elim (lookup username b.state.users) [
    | none ↦ (b, err (codes "wrong username or password"))
    | some u ↦
        if u.password == secret
        then mint_answer u.principal u.name none none [] b
        else (b, err (codes "wrong username or password"))
  ]

-- `mint` reads the clock once more: `minted` is what it says then.
module _ {P Ctx : Type 0} (identity : Identity P Ctx) (now minted : ℕ) (uuids : Uuids) where
  -- A code that was found, and is found no more.
  unfoldable pub redeem : (state : Text) → Code P → Backend P → Backend P × Result Text LoginAnswer
  unfolding lt_i64 sub64 mint_answer
  redeem state c b =
      if not (c.state == state)
      then (b, err (codes "the code is not good for this state"))
      else if lt_i64 code_ttl_secs (sub64 now c.issued)
      then (b, err (codes "the code has expired: sign in again"))
      else mint_answer identity minted uuids c.principal c.name none none [] b

  unfoldable pub login_code :
      (code_text state : Text) → Backend P → Backend P × Result Text LoginAnswer
  unfolding lookup remove redeem
  login_code code_text state b =
      let taken = record b { state = record b.state { codes = remove code_text b.state.codes } } in
      elim (lookup code_text b.state.codes) [
        | none ↦ (taken, err (codes "the code is not good (used, or never issued)"))
        | some c ↦ redeem state c taken
      ]

  unfoldable pub login_session :
      Option Ctx → Option ℕ → Option (List Text) → Backend P → Backend P × Result Text LoginAnswer
  unfolding layers_with bounded_ttl mint_answer
  login_session none ttl_secs ceiling b = (b, err needs_someone)
  login_session (some ctx) ttl_secs ceiling b = elim (identity.principal ctx) [
    | none ↦ (b, err needs_someone)
    | some who ↦ elim (identity.layers_of ctx) [
      | err why ↦ (b, err why)
      | ok held ↦ elim (layers_with identity held ceiling) [
        | err why ↦ (b, err why)
        | ok layers ↦
            mint_answer identity minted uuids who (identity.metadata_string ctx (codes "name"))
              (identity.metadata_string ctx (codes "agent"))
              (bounded_ttl now b.default_ttl (identity.expires_at ctx) ttl_secs) layers b
      ]
    ]
  ]

  unfoldable pub login : Option Ctx → LoginFlow → Backend P → Backend P × Result Text LoginAnswer
  unfolding login_browser login_code login_password login_session
  login caller (browser redirect) b = login_browser identity now uuids redirect b
  login caller (code code_text state) b = login_code code_text state b
  login caller (password username secret) b = login_password identity now uuids username secret b
  login caller (session ttl_secs ceiling) b = login_session caller ttl_secs ceiling b

module _ {P Ctx : Type 0} (identity : Identity P Ctx) where
  unfoldable pub signup : Option Ctx → Text
  signup none = codes "sign in first (auth.login): signup asks for access for who you are"
  signup (some ctx) = elim (identity.principal ctx) [
    | none ↦ codes "sign in first (auth.login): signup asks for access for who you are"
    | some who ↦ codes "you already hold a role here"
  ]

  -- The way someone came in, as told or as the principal's kind says.
  unfoldable pub provider_of : Option Text → Text → Option Text
  unfolding split_once
  provider_of (some via) text = some via
  provider_of none text = elim (split_once (codes ":") text) [
    | none ↦ none
    | some (k, rest) ↦ some k
  ]

  unfoldable pub waiting_name : Ctx → Option Text
  waiting_name caller = elim (identity.metadata_string caller (codes "name")) [
    | some name ↦ some name
    | none ↦ identity.metadata_string caller (codes "agent")
  ]

  unfoldable pub newcomer : (now : ℕ) → Ctx → Option Text → P → Waiting
  unfolding provider_of waiting_name
  newcomer now caller via who = record {
    principal = identity.show who;
    name = waiting_name caller;
    provider = provider_of via (identity.show who);
    since = now;
  }

  -- Who asks again is told of the first time.
  unfoldable pub ask_access :
      (now : ℕ) → Ctx → Option Text → State P → State P × Result Text Waiting
  unfolding newcomer
  ask_access now caller via st = elim (identity.principal caller) [
    | none ↦ (st, err (codes "sign in first"))
    | some who ↦
        let w = newcomer now caller via who in
        elim (find_waiting (identity.show who) st.waiting) [
          | some w' ↦ (st, ok w')
          | none ↦ (record st { waiting = st.waiting ++ (w ∷ []) }, ok w)
        ]
  ]
