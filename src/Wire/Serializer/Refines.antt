-- ===== src/Wire/Serializer/Refines.antt =====
-- The writer's state passing implements the composed text.
use plexus_core.Base.{
  ℕ, Text, Bool, true, false, Option, none, some, List, [], ◌∷◌, ◌++◌, ◌≡◌, refl, sym, ap, ◌∙◌,
  if◌then◌else◌, map, arith, append_assoc, append-nil, ◌||◌, ◌==◌, text_eq, nat_eq, length,
}
use plexus_core.Wire.Writer.{Machine, string, key, open_variant}
use plexus_core.Wire.Writer.Strings.{quoted}
use plexus_core.Wire.Writer.Quoted.{string-quoted, key-quoted}
use plexus_core.Wire.Serializer.{
  Node, bool, number, float, str, bytes, unit, unit_variant, newtype, newtype_variant, seq, tuple,
  tuple_variant, mapping, structure, struct_variant, display, fail, Nodes, no_more, node, Entries,
  no_entry, entry, Fields, no_field, field, State, empty, first, rest, opens, raw_value,
  private_number, bool_text, Written, wrote, and_then, next, close_with, close_variant, open_group,
  owes_comma, between_quotes, write_raw, write_raw_fields, write_key, write_bytes, write,
  write_nodes, write_entries, write_fields,
}
use plexus_core.Wire.Serializer.Meaning.{
  in_quotes, bracketed, of_variant, member, option_map, option_map₂, raw_json, raw_fields_json,
  key_json, json, json_nodes, json_entries, json_fields, more_nodes, more_entries, more_fields,
  IsTruthful, AreTruthful, EntriesTruthful, FieldsTruthful,
}
use plexus_core.Wire.Serializer.Groups.{
  Agrees, AgreesList, and_then-ok, and_then-failed, Agrees-map, AgreesList-cons, opens-ne-rest,
  Agrees-group, Agrees-variant_group, variant_text, collect_str-quoted, write_bytes-listed,
  group-bracketed,
}

write_raw-Agrees : (n : Node) (out : Text) → Agrees (raw_json n) out (write_raw n out)
unfolding write_raw raw_json
write_raw-Agrees (bool b) out = (_, refl)
write_raw-Agrees (number t) out = (_, refl)
write_raw-Agrees (float t) out = (_, refl)
write_raw-Agrees (str s) out = refl
write_raw-Agrees (bytes bs) out = (_, refl)
write_raw-Agrees unit out = (_, refl)
write_raw-Agrees (unit_variant v) out = (_, refl)
write_raw-Agrees (newtype n) out = (_, refl)
write_raw-Agrees (newtype_variant v n) out = (_, refl)
write_raw-Agrees (seq len ns) out = (_, refl)
write_raw-Agrees (tuple len ns) out = (_, refl)
write_raw-Agrees (tuple_variant v len ns) out = (_, refl)
write_raw-Agrees (mapping len es) out = (_, refl)
write_raw-Agrees (structure name len fs) out = (_, refl)
write_raw-Agrees (struct_variant v len fs) out = (_, refl)
write_raw-Agrees (display ps) out = refl
write_raw-Agrees (fail why) out = (_, refl)

Agrees-append :
    (o o' : Option Text) (out : Text) (w : Written) (k : Text → Written)
    → Agrees o out w
    → ((out' : Text) → Agrees o' out' (k out'))
    → Agrees (option_map₂ (λ (a b : Text). a ++ b) o o') out (and_then w k)
Agrees-append none o' out w k (why, e) later = (why, and_then-failed w why k e)
Agrees-append (some t) none out w k here later =
    let (why, e) = later (out ++ t) in (why, ap Written.error (and_then-ok w (out ++ t) k here) ∙ e)
Agrees-append (some t) (some u) out w k here later =
    and_then-ok w (out ++ t) k here ∙ (later (out ++ t) ∙ ap wrote (append_assoc out t u))

Agrees-if :
    (b : Bool) (o o' : Option Text) (out : Text) (w w' : Written)
    → Agrees o out w
    → Agrees o' out w'
    → Agrees (if b then o else o') out (if b then w else w')
Agrees-if true o o' out w w' h k = h
Agrees-if false o o' out w w' h k = k

quotes-Agrees : (t out : Text) → between_quotes t out ≡ wrote (out ++ in_quotes t)
quotes-Agrees t out = ap wrote (
    append_assoc (out ++ (b'"' ∷ [])) t (b'"' ∷ [])
    ∙ append_assoc out (b'"' ∷ []) (t ++ (b'"' ∷ [])))

no_nodes :
    (ns : Nodes) (show_byte : ℕ → Text) → more_nodes ns ≡ false → json_nodes show_byte ns ≡ some []
unfolding json_nodes
no_nodes no_more show_byte h = refl
no_nodes (node n ns) show_byte h = cc

no_entries :
    (es : Entries) (show_byte : ℕ → Text)
    → more_entries es ≡ false
    → json_entries show_byte es ≡ some []
unfolding json_entries
no_entries no_entry show_byte h = refl
no_entries (entry k v es) show_byte h = cc

no_fields :
    (fs : Fields) (show_byte : ℕ → Text)
    → more_fields fs ≡ false
    → json_fields show_byte fs ≡ some []
unfolding json_fields
no_fields no_field show_byte h = refl
no_fields (field k v fs) show_byte h = cc

write_raw_fields-Agrees :
    (fs : Fields) (out : Text) → Agrees (raw_fields_json fs) out (write_raw_fields fs out)
unfolding write_raw_fields raw_fields_json
write_raw_fields-Agrees no_field out = ap wrote (sym (append-nil out))
write_raw_fields-Agrees (field k v fs) out =
    let here =
      Agrees-append (raw_json v) (raw_fields_json fs) out (write_raw v out) (write_raw_fields fs)
        (write_raw-Agrees v out) (write_raw_fields-Agrees fs) in
    Agrees-if (k == raw_value || k == private_number) _ none out _ _ here (_, refl)

bytes_told :
    (show_byte : ℕ → Text) (bs : List ℕ) → opens (some (length bs)) ≡ empty → map show_byte bs ≡ []
unfolding opens
bytes_told show_byte [] h = refl
bytes_told show_byte (b ∷ bs) h = ground arith

write_bytes-bracketed :
    (show_byte : ℕ → Text) (bs : List ℕ) (out : Text)
    → write_bytes show_byte bs
        (opens (some (length bs)))
        (open_group (opens (some (length bs))) b'[' b']' out)
      ≡ out ++ bracketed b'[' b']' (map show_byte bs)
write_bytes-bracketed show_byte bs out =
    let state = opens (some (length bs)) in
    write_bytes-listed show_byte bs state (open_group state b'[' b']' out)
    ∙ group-bracketed state b'[' b']' (map show_byte bs) out (opens-ne-rest (some (length bs)))
        (bytes_told show_byte bs)

module _ (machine : Machine) where
  string-Agrees : (s out : Text) → Agrees (some (quoted s)) out (wrote (string machine s out))
  string-Agrees s out = ap wrote (string-quoted machine s out)

  write_key-Agrees : (n : Node) (out : Text) → Agrees (key_json n) out (write_key machine n out)
  unfolding write_key key_json
  write_key-Agrees (bool b) out = quotes-Agrees (bool_text b) out
  write_key-Agrees (number t) out = quotes-Agrees t out
  write_key-Agrees (float none) out = (_, refl)
  write_key-Agrees (float (some t)) out = quotes-Agrees t out
  write_key-Agrees (str s) out = string-Agrees s out
  write_key-Agrees (bytes bs) out = (_, refl)
  write_key-Agrees unit out = (_, refl)
  write_key-Agrees (unit_variant v) out = string-Agrees v out
  write_key-Agrees (newtype n) out = write_key-Agrees n out
  write_key-Agrees (newtype_variant v n) out = (_, refl)
  write_key-Agrees (seq len ns) out = (_, refl)
  write_key-Agrees (tuple len ns) out = (_, refl)
  write_key-Agrees (tuple_variant v len ns) out = (_, refl)
  write_key-Agrees (mapping len es) out = (_, refl)
  write_key-Agrees (structure name len fs) out = (_, refl)
  write_key-Agrees (struct_variant v len fs) out = (_, refl)
  write_key-Agrees (display ps) out = ap wrote (collect_str-quoted machine ps out)
  write_key-Agrees (fail why) out = (_, refl)

  open_variant-text :
      (v out : Text) → open_variant machine v out ≡ out ++ (b'{' ∷ (quoted v ++ (b':' ∷ [])))
  unfolding open_variant
  open_variant-text v out = rw (string-quoted machine v (out ++ (b'{' ∷ []))) (simp append_assoc)

  -- A member's name and value, as an element of its group.
  field-Agrees :
      (k : Text) (o : Option Text) (state : State) (out : Text) (w : Written)
      → Agrees o (key machine (owes_comma state) k out) w
      → Agrees (option_map (member (quoted k)) o) (next state out) w
  unfolding owes_comma next
  field-Agrees k none state out w a = a
  field-Agrees k (some t) empty out w a =
      a ∙ ap wrote (rw (key-quoted machine true k out) (simp append_assoc))
  field-Agrees k (some t) first out w a =
      a ∙ ap wrote (rw (key-quoted machine false k out) (simp append_assoc))
  field-Agrees k (some t) rest out w a =
      a ∙ ap wrote (rw (key-quoted machine true k out) (simp append_assoc))

  entry-Agrees :
      (k o : Option Text) (out : Text) (w : Written) (write_value : Text → Written)
      → Agrees k out w
      → ((out' : Text) → Agrees o out' (write_value out'))
      → Agrees (option_map₂ member k o) out (and_then w (λ p. write_value (p ++ (b':' ∷ []))))
  entry-Agrees none o out w write_value (why, e) h =
      (why, and_then-failed w why (λ p. write_value (p ++ (b':' ∷ []))) e)
  entry-Agrees (some k) none out w write_value a h =
      let (why, e) = h ((out ++ k) ++ (b':' ∷ [])) in
      (why, ap Written.error (and_then-ok w (out ++ k) (λ p. write_value (p ++ (b':' ∷ []))) a) ∙ e)
  entry-Agrees (some k) (some t) out w write_value a h =
      and_then-ok w (out ++ k) (λ p. write_value (p ++ (b':' ∷ []))) a
      ∙ (h ((out ++ k) ++ (b':' ∷ [])) ∙ ap wrote (simp append_assoc))

module _ (machine : Machine) (show_byte : ℕ → Text) where
  mutual
    unfolding write json IsTruthful

    pub write-Agrees :
        (n : Node) (out : Text)
        → IsTruthful n
        → Agrees (json show_byte n) out (write machine show_byte n out)
    write-Agrees (bool b) out h = refl
    write-Agrees (number t) out h = refl
    write-Agrees (float none) out h = refl
    write-Agrees (float (some t)) out h = refl
    write-Agrees (str s) out h = string-Agrees machine s out
    write-Agrees (bytes bs) out h = ap wrote (write_bytes-bracketed show_byte bs out)
    write-Agrees unit out h = refl
    write-Agrees (unit_variant v) out h = string-Agrees machine v out
    write-Agrees (newtype n) out h = write-Agrees n out h
    write-Agrees (newtype_variant v n) out h =
        let before = open_variant machine v out in
        Agrees-map (json show_byte n) (of_variant v) before out (write machine show_byte n before)
          (λ o. wrote (o ++ (b'}' ∷ [])))
          (λ t. ap wrote (variant_text v out before t (open_variant-text machine v out)))
          (write-Agrees n before h)
    write-Agrees (seq len ns) out (told, hs) =
        Agrees-group (json_nodes show_byte ns) (opens len) b'[' b']' out _ (opens-ne-rest len)
          (λ e. no_nodes ns show_byte (told e))
          (write_nodes-Agrees (close_with b']') ns (opens len)
            (open_group (opens len) b'[' b']' out) hs)
    write-Agrees (tuple len ns) out (told, hs) =
        let state = opens (some len) in
        Agrees-group (json_nodes show_byte ns) state b'[' b']' out _ (opens-ne-rest (some len))
          (λ e. no_nodes ns show_byte (told e))
          (write_nodes-Agrees (close_with b']') ns state (open_group state b'[' b']' out) hs)
    write-Agrees (tuple_variant v len ns) out (told, hs) =
        let state = opens (some len) in
        let before = open_variant machine v out in
        Agrees-variant_group (json_nodes show_byte ns) state b'[' b']' v out before _
          (opens-ne-rest (some len)) (λ e. no_nodes ns show_byte (told e))
          (open_variant-text machine v out)
          (write_nodes-Agrees (close_variant b']') ns state (open_group state b'[' b']' before) hs)
    write-Agrees (mapping len es) out (told, hs) =
        Agrees-group (json_entries show_byte es) (opens len) b'{' b'}' out _ (opens-ne-rest len)
          (λ e. no_entries es show_byte (told e))
          (write_entries-Agrees es (opens len) (open_group (opens len) b'{' b'}' out) hs)
    write-Agrees (structure name len fs) out (told, hs) =
        let state = opens (some len) in
        Agrees-if (name == raw_value || name == private_number) (raw_fields_json fs) _ out
          (write_raw_fields fs out) _ (write_raw_fields-Agrees fs out)
          (Agrees-group (json_fields show_byte fs) state b'{' b'}' out _ (opens-ne-rest (some len))
            (λ e. no_fields fs show_byte (told e))
            (write_fields-Agrees (close_with b'}') fs state (open_group state b'{' b'}' out) hs))
    write-Agrees (struct_variant v len fs) out (told, hs) =
        let state = opens (some len) in
        let before = open_variant machine v out in
        Agrees-variant_group (json_fields show_byte fs) state b'{' b'}' v out before _
          (opens-ne-rest (some len)) (λ e. no_fields fs show_byte (told e))
          (open_variant-text machine v out)
          (write_fields-Agrees (close_variant b'}') fs state (open_group state b'{' b'}' before) hs)
    write-Agrees (display ps) out h = ap wrote (collect_str-quoted machine ps out)
    write-Agrees (fail why) out h = (why, refl)

    write_nodes-Agrees :
        (end : State → Text → Text) (ns : Nodes) (state : State) (out : Text)
        → AreTruthful ns
        → AgreesList
            (json_nodes show_byte ns)
            end
            state
            out
            (write_nodes machine show_byte end ns state out)
    write_nodes-Agrees end no_more state out h =
        ap (λ o. wrote (end state o)) (sym (append-nil out))
    write_nodes-Agrees end (node n ns) state out (h, hs) =
        AgreesList-cons (json show_byte n) (json_nodes show_byte ns) end state out
          (write machine show_byte n (next state out)) (write_nodes machine show_byte end ns rest)
          (write-Agrees n (next state out) h) (λ o. write_nodes-Agrees end ns rest o hs)

    write_entries-Agrees :
        (es : Entries) (state : State) (out : Text)
        → EntriesTruthful es
        → AgreesList
            (json_entries show_byte es)
            (close_with b'}')
            state
            out
            (write_entries machine show_byte es state out)
    write_entries-Agrees no_entry state out h =
        ap (λ o. wrote (close_with b'}' state o)) (sym (append-nil out))
    write_entries-Agrees (entry k v es) state out (h, hs) =
        AgreesList-cons (option_map₂ member (key_json k) (json show_byte v))
          (json_entries show_byte es) (close_with b'}') state out
          (and_then (write_key machine k (next state out))
            (λ p. write machine show_byte v (p ++ (b':' ∷ []))))
          (write_entries machine show_byte es rest)
          (entry-Agrees machine (key_json k) (json show_byte v) (next state out)
            (write_key machine k (next state out)) (write machine show_byte v)
            (write_key-Agrees machine k (next state out)) (λ o. write-Agrees v o h))
          (λ o. write_entries-Agrees es rest o hs)

    write_fields-Agrees :
        (end : State → Text → Text) (fs : Fields) (state : State) (out : Text)
        → FieldsTruthful fs
        → AgreesList
            (json_fields show_byte fs)
            end
            state
            out
            (write_fields machine show_byte end fs state out)
    write_fields-Agrees end no_field state out h =
        ap (λ o. wrote (end state o)) (sym (append-nil out))
    write_fields-Agrees end (field k v fs) state out (h, hs) =
        let pos = key machine (owes_comma state) k out in
        AgreesList-cons (option_map (member (quoted k)) (json show_byte v))
          (json_fields show_byte fs) end state out (write machine show_byte v pos)
          (write_fields machine show_byte end fs rest)
          (field-Agrees machine k (json show_byte v) state out (write machine show_byte v pos)
            (write-Agrees v pos h))
          (λ o. write_fields-Agrees end fs rest o hs)

  -- Whatever is serialized, where no group is told falsely that nothing is to come: the writer adds
  -- the JSON composed of its parts behind what the buffer holds, and it fails exactly where
  -- something refuses to be serialized, or to be a key or a raw value.
  pub write-json :
      (n : Node) (out : Text)
      → IsTruthful n
      → Agrees (json show_byte n) out (write machine show_byte n out)
  write-json n out h = write-Agrees n out h
