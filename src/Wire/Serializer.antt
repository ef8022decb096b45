-- ===== src/Wire/Serializer.antt =====
-- serde's calls on `Json` (src/plexus/wire/json.rs): one `Node` for each method of the serializer
-- with what is passed to it, and what each writes.
pub mod Meaning
pub mod Groups
pub mod Refines
use plexus_core.Base.{
  ℕ, Text, codes, Bool, true, false, Option, none, some, List, [], ◌∷◌, ◌++◌, if◌then◌else◌, ◌==◌,
  nat_eq, text_eq, ◌||◌, not, length,
}
use plexus_core.Wire.Writer.{Machine, string, key, contents, open_variant}

-- A number is the text that serde_json's `Formatter` makes of it, a float none where it is not
-- finite. `newtype` stands for `serialize_newtype_struct` and `serialize_some`, `unit` for
-- `serialize_none` and `serialize_unit_struct` too, `tuple` for `serialize_tuple_struct` too, and
-- `display` for `collect_str`, with the pieces a `Display` writes; one that fails is left out. A
-- `Serialize` that refuses is `fail`.
mutual
  pub data Node : Type 0 where
    bool : Bool → Node
    number : Text → Node
    float : Option Text → Node
    str : Text → Node
    bytes : List ℕ → Node
    unit : Node
    unit_variant : Text → Node
    newtype : Node → Node
    newtype_variant : Text → Node → Node
    seq : Option ℕ → Nodes → Node
    tuple : ℕ → Nodes → Node
    tuple_variant : Text → ℕ → Nodes → Node
    mapping : Option ℕ → Entries → Node
    structure : (name : Text) → ℕ → Fields → Node
    struct_variant : Text → ℕ → Fields → Node
    display : List Text → Node
    fail : Text → Node

  pub data Nodes : Type 0 where
    no_more : Nodes
    node : Node → Nodes → Nodes

  pub data Entries : Type 0 where
    no_entry : Entries
    entry : Node → Node → Entries → Entries

  pub data Fields : Type 0 where
    no_field : Fields
    field : Text → Node → Fields → Fields

-- The buffer after a call, and the call's error.
pub record Written : Type 0 where
  pub out : Text
  pub error : Option Text

abbrev pub wrote : Text → Written
wrote out = record { out = out; error = none }

abbrev pub failed : Text → Text → Written
failed out why = record { out = out; error = some why }

-- `?`
unfoldable pub and_then : Written → (Text → Written) → Written
and_then w k = elim w.error [ none ↦ k w.out | some why ↦ w ]

abbrev pub raw_value : Text
raw_value = codes "$serde_json::private::RawValue"

abbrev pub private_number : Text
private_number = codes "$serde_json::private::Number"

abbrev pub no_key : Text
no_key = codes "key must be a string"

abbrev pub not_text : Text
not_text = codes "a raw value is text"

pub data State : Type 0 where
  empty first rest : State

-- `Group::next`, and the comma of `serialize_field`.
unfoldable pub owes_comma : State → Bool
owes_comma first = false
owes_comma empty = true
owes_comma rest = true

unfoldable pub next : State → Text → Text
unfolding owes_comma
next state out = if owes_comma state then out ++ (b',' ∷ []) else out

unfoldable pub close : State → ℕ → Text → Text
close empty with_byte out = out
close first with_byte out = out ++ (with_byte ∷ [])
close rest with_byte out = out ++ (with_byte ∷ [])

-- `serialize_seq` and `serialize_map`: the opening bracket, and the closing one at once where
-- nothing is to come.
unfoldable pub opens : Option ℕ → State
opens none = first
opens (some n) = if n == 0 then empty else first

unfoldable pub open_group : State → (open_byte close_byte : ℕ) → Text → Text
open_group empty open_byte close_byte out = out ++ (open_byte ∷ close_byte ∷ [])
open_group first open_byte close_byte out = out ++ (open_byte ∷ [])
open_group rest open_byte close_byte out = out ++ (open_byte ∷ [])

abbrev pub concat : List Text → Text
concat [] = []
concat (p ∷ ps) = p ++ concat ps

-- `RawText`: a raw value's text, as it is, and nothing but a text.
unfoldable pub write_raw : Node → Text → Written
write_raw (str s) out = wrote (out ++ s)
write_raw (display ps) out = wrote (out ++ concat ps)
write_raw (fail why) out = failed out why
write_raw _ out = failed out not_text

-- The one field of a raw value.
unfoldable pub write_raw_fields : Fields → Text → Written
unfolding write_raw and_then
write_raw_fields no_field out = wrote out
write_raw_fields (field k v fs) out =
    let here = write_raw v out in
    if k == raw_value || k == private_number
    then and_then here (write_raw_fields fs)
    else failed out (codes "not a raw value")

abbrev pub null : Text → Written
null out = wrote (out ++ codes "null")

abbrev pub between_quotes : Text → Text → Written
between_quotes text out = wrote (out ++ (b'"' ∷ []) ++ text ++ (b'"' ∷ []))

abbrev pub bool_text : Bool → Text
bool_text b = if b then codes "true" else codes "false"

-- `Group::close` and `Group::close_variant`.
abbrev pub close_with : ℕ → State → Text → Text
close_with with_byte state out = close state with_byte out

abbrev pub close_variant : ℕ → State → Text → Text
close_variant with_byte state out = close state with_byte out ++ (b'}' ∷ [])

unfoldable pub write_bytes : (show_byte : ℕ → Text) → List ℕ → State → Text → Text
unfolding next close
write_bytes show_byte [] state out = close state b']' out
write_bytes show_byte (b ∷ bs) state out =
    write_bytes show_byte bs rest (next state out ++ show_byte b)

module _ (machine : Machine) where
  -- `fmt::Write::write_str`, for each piece.
  unfoldable pub write_pieces : List Text → Text → Text
  write_pieces [] out = out
  write_pieces (p ∷ ps) out = write_pieces ps (contents machine p out)

  unfoldable pub collect_str : List Text → Text → Text
  unfolding write_pieces
  collect_str ps out = write_pieces ps (out ++ (b'"' ∷ [])) ++ (b'"' ∷ [])

  -- `Key`: a map's key.
  unfoldable pub write_key : Node → Text → Written
  unfolding collect_str string
  write_key (bool b) out = between_quotes (bool_text b) out
  write_key (number t) out = between_quotes t out
  write_key (float (some t)) out = between_quotes t out
  write_key (float none) out = failed out (codes "float key must be finite")
  write_key (str s) out = wrote (string machine s out)
  write_key (unit_variant v) out = wrote (string machine v out)
  write_key (newtype n) out = write_key n out
  write_key (display ps) out = wrote (collect_str ps out)
  write_key (fail why) out = failed out why
  write_key _ out = failed out no_key

module _ (machine : Machine) (show_byte : ℕ → Text) where
  unfoldable mutual
    unfolding write_raw_fields write_key write_bytes and_then next close opens open_group
        collect_str string key open_variant owes_comma

    pub write : Node → Text → Written
    write (bool b) out = wrote (out ++ bool_text b)
    write (number t) out = wrote (out ++ t)
    write (float (some t)) out = wrote (out ++ t)
    write (float none) out = null out
    write (str s) out = wrote (string machine s out)
    write (bytes bs) out =
        let state = opens (some (length bs)) in
        wrote (write_bytes show_byte bs state (open_group state b'[' b']' out))
    write unit out = null out
    write (unit_variant v) out = wrote (string machine v out)
    write (newtype n) out = write n out
    write (newtype_variant v n) out =
        and_then (write n (open_variant machine v out)) (λ o. wrote (o ++ (b'}' ∷ [])))
    write (seq len ns) out =
        write_nodes (close_with b']') ns (opens len) (open_group (opens len) b'[' b']' out)
    write (tuple len ns) out =
        let state = opens (some len) in
        write_nodes (close_with b']') ns state (open_group state b'[' b']' out)
    write (tuple_variant v len ns) out =
        let state = opens (some len) in
        write_nodes (close_variant b']') ns state
          (open_group state b'[' b']' (open_variant machine v out))
    write (mapping len es) out = write_entries es (opens len) (open_group (opens len) b'{' b'}' out)
    write (structure name len fs) out =
        let state = opens (some len) in
        let as_map = write_fields (close_with b'}') fs state (open_group state b'{' b'}' out) in
        if name == raw_value || name == private_number then write_raw_fields fs out else as_map
    write (struct_variant v len fs) out =
        let state = opens (some len) in
        write_fields (close_variant b'}') fs state
          (open_group state b'{' b'}' (open_variant machine v out))
    write (display ps) out = wrote (collect_str machine ps out)
    write (fail why) out = failed out why

    pub write_nodes : (State → Text → Text) → Nodes → State → Text → Written
    write_nodes end no_more state out = wrote (end state out)
    write_nodes end (node n ns) state out =
        and_then (write n (next state out)) (write_nodes end ns rest)

    pub write_entries : Entries → State → Text → Written
    write_entries no_entry state out = wrote (close_with b'}' state out)
    write_entries (entry k v es) state out =
        and_then (and_then (write_key machine k (next state out)) (λ o. write v (o ++ (b':' ∷ []))))
          (write_entries es rest)

    pub write_fields : (State → Text → Text) → Fields → State → Text → Written
    write_fields end no_field state out = wrote (end state out)
    write_fields end (field k v fs) state out =
        and_then (write v (key machine (owes_comma state) k out)) (write_fields end fs rest)
