-- ===== src/Json.antt =====
-- `serde_json::Value`. A number is its text (`Number::to_string`); an object lists its members.
use plexus_core.Base.{
  Text, Bool, Option, none, some, List, [], ◌∷◌, if◌then◌else◌, ◌==◌, text_eq, text_beq_iff, ◌≡◌,
  refl, arith,
}

mutual
  pub data Value : Type 0 where
    null : Value
    bool : Bool → Value
    number : Text → Value
    string : Text → Value
    array : Items → Value
    object : Members → Value

  pub data Items : Type 0 where
    nil : Items
    cons : Value → Items → Items

  pub data Members : Type 0 where
    end : Members
    member : Text → Value → Members → Members

abbrev pub items : Items → List Value
items nil = []
items (cons v vs) = v ∷ items vs

unfoldable pub get_member : Text → Members → Option Value
get_member k end = none
get_member k (member j v ms) = if j == k then some v else get_member k ms

-- `Value::get` with a text: nothing but an object has members.
unfoldable pub get : Text → Value → Option Value
unfolding get_member
get k (object ms) = get_member k ms
get k null = none
get k (bool _) = none
get k (number _) = none
get k (string _) = none
get k (array _) = none

-- `Map::insert`: a key that is there keeps its place. In what order a map lists its members depends
-- on how serde_json is built; no theorem reads it.
unfoldable pub insert_member : Text → Value → Members → Members
insert_member k v end = member k v end
insert_member k v (member j w ms) =
    if j == k then member j v ms else member j w (insert_member k v ms)

pub get_member-insert_member :
    (k j : Text) (v : Value) (ms : Members)
    → get_member j (insert_member k v ms) ≡ (if k == j then some v else get_member j ms)
unfolding get_member insert_member
get_member-insert_member k j v end = refl
get_member-insert_member k j v (member i w ms) =
    ground (
      arith,
      get_member-insert_member k j v ms,
      text_beq_iff i k,
      text_beq_iff i j,
      text_beq_iff k j,
    )
