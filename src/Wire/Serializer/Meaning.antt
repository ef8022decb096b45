-- ===== src/Wire/Serializer/Meaning.antt =====
-- The JSON of what is serialized, as a text composed of the texts of its parts.
use plexus_core.Base.{
  ℕ, Text, codes, Bool, true, false, Option, none, some, List, [], ◌∷◌, ◌++◌, ◌≡◌, if◌then◌else◌,
  ◌==◌, text_eq, ◌||◌, map,
}
use plexus_core.Wire.Writer.Strings.{quoted}
use plexus_core.Wire.Serializer.{
  Node, bool, number, float, str, bytes, unit, unit_variant, newtype, newtype_variant, seq, tuple,
  tuple_variant, mapping, structure, struct_variant, display, fail, Nodes, no_more, node, Entries,
  no_entry, entry, Fields, no_field, field, State, empty, opens, raw_value, private_number, concat,
  bool_text,
}

-- Each text with a comma before it.
abbrev pub after_commas : List Text → Text
after_commas [] = []
after_commas (t ∷ ts) = (b',' ∷ t) ++ after_commas ts

-- The texts, a comma between each two.
abbrev pub commas : List Text → Text
commas [] = []
commas (t ∷ ts) = t ++ after_commas ts

abbrev pub bracketed : (open_byte close_byte : ℕ) → List Text → Text
bracketed open_byte close_byte ts = open_byte ∷ (commas ts ++ (close_byte ∷ []))

-- An object of one member.
abbrev pub of_variant : Text → Text → Text
of_variant v t = b'{' ∷ (quoted v ++ ((b':' ∷ t) ++ (b'}' ∷ [])))

abbrev pub member : Text → Text → Text
member k t = k ++ (b':' ∷ t)

abbrev pub option_map {ℓ κ} : {A : Type ℓ} {B : Type κ} → (A → B) → Option A → Option B
option_map f none = none
option_map f (some a) = some (f a)

abbrev pub option_map₂ {ℓ κ ι} :
    {A : Type ℓ} {B : Type κ} {C : Type ι} → (A → B → C) → Option A → Option B → Option C
option_map₂ f none b = none
option_map₂ f (some a) none = none
option_map₂ f (some a) (some b) = some (f a b)

abbrev pub in_quotes : Text → Text
in_quotes t = b'"' ∷ (t ++ (b'"' ∷ []))

unfoldable pub raw_json : Node → Option Text
raw_json (str s) = some s
raw_json (display ps) = some (concat ps)
raw_json _ = none

unfoldable pub raw_fields_json : Fields → Option Text
unfolding raw_json
raw_fields_json no_field = some []
raw_fields_json (field k v fs) =
    if k == raw_value || k == private_number
    then option_map₂ (λ (a b : Text). a ++ b) (raw_json v) (raw_fields_json fs)
    else none

unfoldable pub key_json : Node → Option Text
key_json (bool b) = some (in_quotes (bool_text b))
key_json (number t) = some (in_quotes t)
key_json (float (some t)) = some (in_quotes t)
key_json (str s) = some (quoted s)
key_json (unit_variant v) = some (quoted v)
key_json (newtype n) = key_json n
key_json (display ps) = some (quoted (concat ps))
key_json _ = none

module _ (show_byte : ℕ → Text) where
  unfoldable mutual
    unfolding raw_fields_json key_json

    -- None where something refuses to be serialized, or to be a key or a raw value.
    pub json : Node → Option Text
    json (bool b) = some (bool_text b)
    json (number t) = some t
    json (float (some t)) = some t
    json (float none) = some (codes "null")
    json (str s) = some (quoted s)
    json (bytes bs) = some (bracketed b'[' b']' (map show_byte bs))
    json unit = some (codes "null")
    json (unit_variant v) = some (quoted v)
    json (newtype n) = json n
    json (newtype_variant v n) = option_map (of_variant v) (json n)
    json (seq len ns) = option_map (bracketed b'[' b']') (json_nodes ns)
    json (tuple len ns) = option_map (bracketed b'[' b']') (json_nodes ns)
    json (tuple_variant v len ns) =
        option_map (λ ts. of_variant v (bracketed b'[' b']' ts)) (json_nodes ns)
    json (mapping len es) = option_map (bracketed b'{' b'}') (json_entries es)
    json (structure name len fs) =
        let members = option_map (bracketed b'{' b'}') (json_fields fs) in
        if name == raw_value || name == private_number then raw_fields_json fs else members
    json (struct_variant v len fs) =
        option_map (λ ts. of_variant v (bracketed b'{' b'}' ts)) (json_fields fs)
    json (display ps) = some (quoted (concat ps))
    json (fail why) = none

    pub json_nodes : Nodes → Option (List Text)
    json_nodes no_more = some []
    json_nodes (node n ns) =
        option_map₂ (λ (t : Text) (ts : List Text). t ∷ ts) (json n) (json_nodes ns)

    pub json_entries : Entries → Option (List Text)
    json_entries no_entry = some []
    json_entries (entry k v es) =
        option_map₂ (λ (t : Text) (ts : List Text). t ∷ ts)
          (option_map₂ member (key_json k) (json v)) (json_entries es)

    pub json_fields : Fields → Option (List Text)
    json_fields no_field = some []
    json_fields (field k v fs) =
        option_map₂ (λ (t : Text) (ts : List Text). t ∷ ts)
          (option_map (member (quoted k)) (json v)) (json_fields fs)

abbrev pub more_nodes : Nodes → Bool
more_nodes no_more = false
more_nodes (node n ns) = true

abbrev pub more_entries : Entries → Bool
more_entries no_entry = false
more_entries (entry k v es) = true

abbrev pub more_fields : Fields → Bool
more_fields no_field = false
more_fields (field k v fs) = true

-- Who says that nothing is to come adds nothing.
abbrev pub Told : State → Bool → Type 0
Told state more = state ≡ empty → more ≡ false

-- No length told of a group in a node is a false zero.
unfoldable mutual
  pub IsTruthful : Node → Type 0
  IsTruthful (newtype n) = IsTruthful n
  IsTruthful (newtype_variant v n) = IsTruthful n
  IsTruthful (seq len ns) = Told (opens len) (more_nodes ns) × AreTruthful ns
  IsTruthful (tuple len ns) = Told (opens (some len)) (more_nodes ns) × AreTruthful ns
  IsTruthful (tuple_variant v len ns) = Told (opens (some len)) (more_nodes ns) × AreTruthful ns
  IsTruthful (mapping len es) = Told (opens len) (more_entries es) × EntriesTruthful es
  IsTruthful (structure name len fs) = Told (opens (some len)) (more_fields fs) × FieldsTruthful fs
  IsTruthful (struct_variant v len fs) =
      Told (opens (some len)) (more_fields fs) × FieldsTruthful fs
  IsTruthful _ = Unit

  pub AreTruthful : Nodes → Type 0
  AreTruthful no_more = Unit
  AreTruthful (node n ns) = IsTruthful n × AreTruthful ns

  pub EntriesTruthful : Entries → Type 0
  EntriesTruthful no_entry = Unit
  EntriesTruthful (entry k v es) = IsTruthful v × EntriesTruthful es

  pub FieldsTruthful : Fields → Type 0
  FieldsTruthful no_field = Unit
  FieldsTruthful (field k v fs) = IsTruthful v × FieldsTruthful fs
