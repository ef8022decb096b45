-- ===== src/View/Schema.antt =====
-- What a view reads of a schema (src/plexus/schema.rs): of a method and of an activation all other
-- fields are one field `rest`, of a type of its own, which a view passes on.
use plexus_core.Base.{
  Text, codes, Bool, true, false, not, ◌&&◌, Option, none, some, List, ◌++◌, if◌then◌else◌, ◌==◌,
  text_eq,
}
use plexus_core.Base.Assoc.{Assoc}
use plexus_core.Json.{Value, string, object, end, member, get, get_member}

pub data MethodRole : Type 0 where
  rpc static_child : MethodRole
  dynamic_child : (list_method search_method : Option Text) → MethodRole

pub data Cardinality : Type 0 where
  one many : Cardinality

pub data ViewKind : Type 0 where
  anonymous caller_view : ViewKind

pub record MethodSchema (R : Type 0) : Type 0 where
  pub name : Text
  pub hash : Text
  pub params : Option Value
  pub returns : Value
  pub error : Option Value
  pub progress : Option Value
  pub cardinality : Cardinality
  pub role : MethodRole
  pub public : Bool
  pub grant : Option Text
  pub held_on : Option (List Text)
  pub rest : R

pub record ChildSummary : Type 0 where
  pub namespace : Text
  pub description : Text
  pub hash : Text

pub record PluginSchema (R E : Type 0) : Type 0 where
  pub namespace : Text
  pub self_hash : Text
  pub children_hash : Option Text
  pub hash : Text
  pub methods : List (MethodSchema R)
  pub children : Option (List ChildSummary)
  pub roles : Assoc Text (List Text)
  pub view : Option ViewKind
  pub rest : E

abbrev pub is_rpc : MethodRole → Bool
is_rpc rpc = true
is_rpc static_child = false
is_rpc (dynamic_child _ _) = false

abbrev pub is_static_child : MethodRole → Bool
is_static_child rpc = false
is_static_child static_child = true
is_static_child (dynamic_child _ _) = false

abbrev pub is_one : Cardinality → Bool
is_one one = true
is_one many = false

abbrev pub is_none {ℓ} : {A : Type ℓ} → Option A → Bool
is_none none = true
is_none (some _) = false

-- `o.get(key)` of what may be no object, or may be nothing.
abbrev pub get_in : Text → Option Value → Option Value
get_in k none = none
get_in k (some v) = get k v

-- An object of this one member.
abbrev pub is_alone : Text → Option Value → Bool
is_alone k (some (object (member j v end))) = j == k
is_alone k _ = false

abbrev pub is_text : Text → Option Value → Bool
is_text t (some (string s)) = s == t
is_text t _ = false

module _ {R : Type 0} where
  unfoldable pub is_auto_schema : MethodSchema R → Bool
  unfolding get get_member
  is_auto_schema m =
      if not (m.name == codes "schema")
      then false
      else if not (is_rpc m.role)
      then false
      else if m.hash == codes "auto_schema"
      then true
      else is_one m.cardinality
        && (is_none m.error
            && (is_none m.progress
                && (is_alone (codes "method") (get_in (codes "properties") m.params)
                    && is_text (codes "SchemaResult") (get (codes "title") m.returns))))

  unfoldable pub grant_or : MethodSchema R → (activation : Text) → Text
  grant_or m activation = elim m.grant [ some g ↦ g | none ↦ activation ++ (codes "." ++ m.name) ]
