-- ===== src/Credentials.antt =====
-- The credentials of an item (src/plexus/credential_envelope.rs): what is captured while an item is
-- serialized goes beside its content, and a cookie's value to the transport instead. A
-- `CapturedCredential` is its value and its metadata, of which the program reads the cookie that it
-- is attached as and when it ends; serde's text of a value and of the metadata are parameters.
pub mod Entries
pub mod Envelope
mod Tests
use plexus_core.Base.{
  ℕ, Text, codes, Bool, true, false, not, Option, none, some, List, [], ◌∷◌, ◌++◌, if◌then◌else◌,
  ◌==◌, text_eq,
}
use plexus_core.Base.Assoc.{Assoc, insert}
use plexus_core.Errors.{ℤ, pos, negsuc}
use plexus_core.Json.{
  Value, null, bool, number, string, array, object, Members, end, insert_member, get, get_member,
}
use plexus_core.ContentHash.Canonical.{le_text}

-- CookieProjector: `no_cookies` is its `None`.
pub data CookieProjector : Type 0 where
  all_cookies no_cookies : CookieProjector

unfoldable pub projects : CookieProjector → Text → Bool
projects all_cookies name = true
projects no_cookies name = false

pub record Captured (M : Type 0) : Type 0 where
  pub value : Value
  pub metadata : M

pub record CookieProjectionHint (M : Type 0) : Type 0 where
  pub cookie_name : Text
  pub cookie_value : Value
  pub metadata : M

-- What the program reads of a CredentialMetadata: the name where it is attached as a cookie, its
-- JSON, and the seconds from a time to its end, where it has one.
pub record MetadataOps (M : Type 0) : Type 0 where
  pub cookie : M → Option Text
  pub to_value : M → Option Value
  pub seconds_left : (now : ℕ) → M → Option ℤ

abbrev pub value_key : Text
value_key = codes "value"

abbrev pub metadata_key : Text
metadata_key = codes "metadata"

abbrev pub credentials_key : Text
credentials_key = codes "_credentials"

abbrev pub or_null : Option Value → Value
or_null none = null
or_null (some v) = v

-- `entries.sort_by`: stable, by id.
module _ {A : Type 0} where
  unfoldable pub insert_by_id : Text × A → List (Text × A) → List (Text × A)
  insert_by_id e [] = e ∷ []
  insert_by_id e (f ∷ fs) = if le_text e.0 f.0 then e ∷ f ∷ fs else f ∷ insert_by_id e fs

  unfoldable pub sort_by_id : List (Text × A) → List (Text × A)
  unfolding insert_by_id
  sort_by_id [] = []
  sort_by_id (e ∷ es) = insert_by_id e (sort_by_id es)

-- A payload that is no object is wrapped.
abbrev pub wrap : Value → Value → Value
wrap payload creds =
    object (insert_member credentials_key creds (insert_member value_key payload end))

unfoldable pub attach : Value → Value → Value
unfolding insert_member
attach (object ms) creds = object (insert_member credentials_key creds ms)
attach null creds = wrap null creds
attach (bool b) creds = wrap (bool b) creds
attach (number t) creds = wrap (number t) creds
attach (string t) creds = wrap (string t) creds
attach (array vs) creds = wrap (array vs) creds

module _ {M : Type 0} (meta : MetadataOps M) where
  unfoldable pub captured_to_wire_json : Captured M → (include_value : Bool) → Value
  unfolding insert_member
  captured_to_wire_json c include_value =
      let obj = if include_value then insert_member value_key c.value end else end in
      object (insert_member metadata_key (or_null (meta.to_value c.metadata)) obj)

  -- The cookie that the transport is to set.
  unfoldable pub cookie_target : CookieProjector → Captured M → Option Text
  unfolding projects
  cookie_target projector c = elim (meta.cookie c.metadata) [
    | none ↦ none
    | some name ↦ if projects projector name then some name else none
  ]

  abbrev pub wire_entry : Option Text → Captured M → Value
  wire_entry none c = captured_to_wire_json c true
  wire_entry (some _) c = captured_to_wire_json c false

  abbrev pub hints_of : Option Text → Captured M → List (CookieProjectionHint M)
  hints_of none c = []
  hints_of (some name) c =
      record { cookie_name = name; cookie_value = c.value; metadata = c.metadata } ∷ []

  unfoldable pub project_each :
      CookieProjector
      → List (Text × Captured M)
      → Members
      → List (CookieProjectionHint M)
      → Members × List (CookieProjectionHint M)
  unfolding cookie_target insert_member
  project_each projector [] wire hints = (wire, hints)
  project_each projector ((id, c) ∷ es) wire hints =
      let target = cookie_target projector c in
      project_each projector es (insert_member id (wire_entry target c) wire)
        (hints ++ hints_of target c)

  abbrev pub with_object :
      Members × List (CookieProjectionHint M) → Option Value × List (CookieProjectionHint M)
  with_object (wire, hints) = (some (object wire), hints)

  unfoldable pub build_credentials_envelope :
      Assoc Text (Captured M) → CookieProjector → Option Value × List (CookieProjectionHint M)
  unfolding sort_by_id project_each
  build_credentials_envelope [] projector = (none, [])
  build_credentials_envelope (e ∷ es) projector =
      with_object (project_each projector (sort_by_id (e ∷ es)) end [])

  abbrev pub attach_some :
      Value → Option Value × List (CookieProjectionHint M) → Value × List (CookieProjectionHint M)
  attach_some payload (none, hints) = (payload, hints)
  attach_some payload (some creds, hints) = (attach payload creds, hints)

  unfoldable pub assemble_envelope_content :
      Value → Assoc Text (Captured M) → CookieProjector → Value × List (CookieProjectionHint M)
  unfolding build_credentials_envelope attach
  assemble_envelope_content payload captured projector =
      attach_some payload (build_credentials_envelope captured projector)

  -- `captured_vec.into_iter().map(|c| (c.id.clone(), c)).collect()`, and what serde made of the
  -- payload.
  unfoldable pub by_id :
      List (Text × Captured M) → Assoc Text (Captured M) → Assoc Text (Captured M)
  unfolding insert
  by_id [] m = m
  by_id ((id, c) ∷ cs) m = by_id cs (insert id c m)

  unfoldable pub serialize_with_credential_capture :
      Option Value → List (Text × Captured M) → Value × Assoc Text (Captured M)
  unfolding by_id
  serialize_with_credential_capture payload captured = (or_null payload, by_id captured [])

  -- format_set_cookie_header: `show` is the text of a value, `digits` that of a number.
  unfoldable pub value_str : (show : Value → Text) → Value → Text
  value_str show (string s) = s
  value_str show null = show null
  value_str show (bool b) = show (bool b)
  value_str show (number t) = show (number t)
  value_str show (array vs) = show (array vs)
  value_str show (object ms) = show (object ms)

  -- `num_seconds().max(0)`
  abbrev pub max_zero : ℤ → ℕ
  max_zero (pos n) = n
  max_zero (negsuc n) = 0

  abbrev pub max_age : (digits : ℕ → Text) → Option ℤ → Text
  max_age digits none = []
  max_age digits (some n) = codes "; Max-Age=" ++ digits (max_zero n)

  unfoldable pub format_set_cookie_header :
      (show : Value → Text) (digits : ℕ → Text) (now : ℕ) → CookieProjectionHint M → Text
  unfolding value_str
  format_set_cookie_header show digits now hint =
      hint.cookie_name
      ++ (codes "="
          ++ (value_str show hint.cookie_value
              ++ (codes "; HttpOnly; Secure; SameSite=None; Path=/"
                  ++ max_age digits (meta.seconds_left now hint.metadata))))

abbrev pub has_credentials_key : Option Value → Bool
has_credentials_key none = false
has_credentials_key (some null) = false
has_credentials_key (some (bool _)) = false
has_credentials_key (some (number _)) = false
has_credentials_key (some (string _)) = false
has_credentials_key (some (array _)) = false
has_credentials_key (some (object ms)) = elim (get_member credentials_key ms) [
  | none ↦ false
  | some _ ↦ true
]

-- The warning that goes with it is a log line.
unfoldable pub check_returns_schema_for_credentials_collision : (returns_schema : Value) → Bool
unfolding get
check_returns_schema_for_credentials_collision s = has_credentials_key (get (codes "properties") s)
