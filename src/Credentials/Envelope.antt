-- ===== src/Credentials/Envelope.antt =====
-- Where a captured credential goes: its value beside the content, or to the transport.
use plexus_core.Base.{
  Text, false, Option, none, some, List, [], ◌∷◌, ◌++◌, ◌≡◌, refl, sym, ap, ◌∙◌, arith, inl, inr,
  ◌==◌, text_eq, nat_eq, Option-cases, append_assoc, append-nil, beq_self, Bool-cases, eq_of_beq,
}
use plexus_core.Base.Assoc.{Assoc, lookup}
use plexus_core.Json.{
  Value, null, bool, number, string, array, object, Members, end, get, get_member, insert_member,
  get_member-insert_member,
}
use plexus_core.Credentials.{
  CookieProjector, all_cookies, no_cookies, Captured, CookieProjectionHint, MetadataOps, sort_by_id,
  cookie_target, wire_entry, hints_of, project_each, by_id, build_credentials_envelope, value_key,
  metadata_key, credentials_key, or_null, captured_to_wire_json, assemble_envelope_content, attach,
  attach_some, serialize_with_credential_capture,
}
use plexus_core.Credentials.Entries.{
  StandsIn, StandsIn-append_left, OnlyEntry, OnlyEntry-sort_by_id, Distinct, lookup-OnlyEntry,
  insert-Distinct,
}

module _ {M : Type 0} (meta : MetadataOps M) where
  by_id-Distinct :
      (cs : List (Text × Captured M)) (m : Assoc Text (Captured M))
      → Distinct m
      → Distinct (by_id meta cs m)
  unfolding by_id
  by_id-Distinct [] m d = d
  by_id-Distinct ((id, c) ∷ cs) m d = by_id-Distinct cs _ (insert-Distinct id c m d)

  module _ (projector : CookieProjector) where
    -- What is under the id stays, where each entry to come for it is alike.
    project_each-keeps :
        (id : Text) (c : Captured M) (es : List (Text × Captured M)) (wire : Members)
        (hints : List (CookieProjectionHint M))
        → OnlyEntry id c es
        → get_member id wire ≡ some (wire_entry meta (cookie_target meta projector c) c)
        → get_member id (project_each meta projector es wire hints).0
          ≡ some (wire_entry meta (cookie_target meta projector c) c)
    unfolding project_each
    project_each-keeps id c [] wire hints o h = h
    project_each-keeps id c ((j, d) ∷ es) wire hints (same, o) h =
        project_each-keeps id c es _ _ o (elim (Bool-cases (j == id)) [
          | inl at ↦
              rw
                (
                  get_member-insert_member j id (wire_entry meta (cookie_target meta projector d) d)
                      wire,
                  at,
                )
                (ap (λ (x : Captured M). some (wire_entry meta (cookie_target meta projector x) x))
                  (same (eq_of_beq j id at)))
          | inr beside ↦
              rw
                (
                  get_member-insert_member j id (wire_entry meta (cookie_target meta projector d) d)
                      wire,
                  beside,
                )
                h
        ])

    project_each-entry :
        (id : Text) (c : Captured M) (pre post : List (Text × Captured M)) (wire : Members)
        (hints : List (CookieProjectionHint M))
        → OnlyEntry id c (pre ++ ((id, c) ∷ post))
        → get_member id (project_each meta projector (pre ++ ((id, c) ∷ post)) wire hints).0
          ≡ some (wire_entry meta (cookie_target meta projector c) c)
    unfolding project_each
    project_each-entry id c [] post wire hints (_, o) = project_each-keeps id c post _ _ o (
        rw
          (
            get_member-insert_member id id (wire_entry meta (cookie_target meta projector c) c)
                wire,
            beq_self id,
          )
          refl)
    project_each-entry id c ((j, d) ∷ pre) post wire hints (_, o) =
        project_each-entry id c pre post _ _ o

    hints_all : List (Text × Captured M) → List (CookieProjectionHint M)
    hints_all [] = []
    hints_all ((id, c) ∷ es) = hints_of meta (cookie_target meta projector c) c ++ hints_all es

    project_each-hints :
        (es : List (Text × Captured M)) (wire : Members) (hints : List (CookieProjectionHint M))
        → (project_each meta projector es wire hints).1 ≡ hints ++ hints_all es
    unfolding project_each hints_all
    project_each-hints [] wire hints = sym (append-nil hints)
    project_each-hints ((id, c) ∷ es) wire hints =
        project_each-hints es _ _
        ∙ append_assoc hints (hints_of meta (cookie_target meta projector c) c) (hints_all es)

    hints_all-StandsIn :
        (id name : Text) (c : Captured M) (pre post : List (Text × Captured M))
        → cookie_target meta projector c ≡ some name
        → StandsIn
            (record { cookie_name = name; cookie_value = c.value; metadata = c.metadata })
            (hints_all (pre ++ ((id, c) ∷ post)))
    unfolding hints_all
    hints_all-StandsIn id name c [] post h = ([], hints_all post, rw h)
    hints_all-StandsIn id name c ((j, d) ∷ pre) post h =
        StandsIn-append_left _ (hints_of meta (cookie_target meta projector d) d) _
          (hints_all-StandsIn id name c pre post h)

  -- A cookie's value goes to a transport that sets cookies and is not in the content; any other is
  -- in the content.
  abbrev pub Sent :
      CookieProjector → Option Text → Captured M → Value → List (CookieProjectionHint M) → Type 0
  Sent all_cookies (some name) c entry hints =
      (get value_key entry ≡ none)
      × StandsIn (record { cookie_name = name; cookie_value = c.value; metadata = c.metadata })
          hints
  Sent all_cookies none c entry hints = get value_key entry ≡ some c.value
  Sent no_cookies o c entry hints = get value_key entry ≡ some c.value

  wire_entry-shown :
      (target : Option Text) (c : Captured M)
      → target ≡ none
      → get value_key (wire_entry meta target c) ≡ some c.value
  unfolding captured_to_wire_json get get_member insert_member
  wire_entry-shown none c h = refl
  wire_entry-shown (some name) c h = cc

  wire_entry-hidden :
      (target : Option Text) (c : Captured M) {name : Text}
      → target ≡ some name
      → get value_key (wire_entry meta target c) ≡ none
  unfolding captured_to_wire_json get get_member insert_member
  wire_entry-hidden none c h = cc
  wire_entry-hidden (some name) c h = refl

  cookie_target-no_cookies : (c : Captured M) → cookie_target meta no_cookies c ≡ none
  unfolding cookie_target
  cookie_target-no_cookies c = ground arith

  cookie_target-all_cookies :
      (c : Captured M) → cookie_target meta all_cookies c ≡ meta.cookie c.metadata
  unfolding cookie_target
  cookie_target-all_cookies c = ground arith

  wire_json-Sent :
      (projector : CookieProjector) (c : Captured M) (hints : List (CookieProjectionHint M))
      → ((name : Text)
          → cookie_target meta projector c ≡ some name
          → StandsIn
              (record { cookie_name = name; cookie_value = c.value; metadata = c.metadata })
              hints)
      → Sent projector
          (meta.cookie c.metadata)
          c
          (wire_entry meta (cookie_target meta projector c) c)
          hints
  wire_json-Sent no_cookies c hints h =
      wire_entry-shown (cookie_target meta no_cookies c) c (cookie_target-no_cookies c)
  wire_json-Sent all_cookies c hints h =
      let same = cookie_target-all_cookies c in
      elim (Option-cases (meta.cookie c.metadata)) [
        | inl e ↦ rw e (wire_entry-shown (cookie_target meta all_cookies c) c (same ∙ e))
        | inr (name, e) ↦
            rw e
              (wire_entry-hidden (cookie_target meta all_cookies c) c (same ∙ e), h name (same ∙ e))
      ]

  wire_json-metadata :
      (projector : CookieProjector) (c : Captured M)
      → get metadata_key (wire_entry meta (cookie_target meta projector c) c)
        ≡ some (or_null (meta.to_value c.metadata))
  unfolding captured_to_wire_json get get_member insert_member
  wire_json-metadata projector c = elim (Option-cases (cookie_target meta projector c)) [
    | inl e ↦ rw e refl
    | inr (name, e) ↦ rw e refl
  ]

  build-Sent :
      (m : Assoc Text (Captured M)) (projector : CookieProjector) (id : Text) (c : Captured M)
      → Distinct m
      → lookup id m ≡ some c
      → (creds : Value) × ((build_credentials_envelope meta m projector).0 ≡ some creds)
        × (get id creds ≡ some (wire_entry meta (cookie_target meta projector c) c))
        × Sent projector
            (meta.cookie c.metadata)
            c
            (wire_entry meta (cookie_target meta projector c) c)
            (build_credentials_envelope meta m projector).1
  unfolding build_credentials_envelope lookup get
  build-Sent [] projector id c d h = cc
  build-Sent (e ∷ es) projector id c d h =
      let (only, (pre, post, at)) = lookup-OnlyEntry id c (e ∷ es) d h in
      let sorted = OnlyEntry-sort_by_id id c (e ∷ es) only in
      let found = project_each-entry projector id c pre post end [] (rw at at sorted) in
      (
        object (project_each meta projector (sort_by_id (e ∷ es)) end []).0,
        refl,
        rw at found,
        wire_json-Sent projector c _ (λ name hit.
            rw (project_each-hints projector (sort_by_id (e ∷ es)) end [], at)
              (hints_all-StandsIn projector id name c pre post hit)),
      )

  attach-credentials :
      (payload creds : Value) → get credentials_key (attach payload creds) ≡ some creds
  unfolding attach get get_member insert_member
  attach-credentials (object ms) creds =
      get_member-insert_member credentials_key credentials_key creds ms
  attach-credentials null creds = refl
  attach-credentials (bool b) creds = refl
  attach-credentials (number t) creds = refl
  attach-credentials (string t) creds = refl
  attach-credentials (array vs) creds = refl

  attach_some-credentials :
      (payload creds : Value) (built : Option Value × List (CookieProjectionHint M))
      → built.0 ≡ some creds
      → (get credentials_key (attach_some meta payload built).0 ≡ some creds)
        × ((attach_some meta payload built).1 ≡ built.1)
  attach_some-credentials payload creds (none, hints) h = cc
  attach_some-credentials payload creds (some made, hints) h =
      (attach-credentials payload made ∙ h, refl)

  -- Whatever credentials an item carries, each captured one is told of under its id with its
  -- metadata; its value is there too, but where it is a cookie's and the transport sets cookies: then
  -- it is not, and the transport is told to set it.
  pub assemble-Sent :
      (payload : Option Value) (cs : List (Text × Captured M)) (projector : CookieProjector)
      (id : Text) (c : Captured M)
      → lookup id (serialize_with_credential_capture meta payload cs).1 ≡ some c
      → let (body, captured) = serialize_with_credential_capture meta payload cs in
        let (content, hints) = assemble_envelope_content meta body captured projector in
        (creds : Value) × (entry : Value) × (get credentials_key content ≡ some creds)
        × (get id creds ≡ some entry)
        × (get metadata_key entry ≡ some (or_null (meta.to_value c.metadata)))
        × Sent projector (meta.cookie c.metadata) c entry hints
  unfolding assemble_envelope_content serialize_with_credential_capture
  assemble-Sent payload cs projector id c h =
      let (creds, built, found, sent) =
        build-Sent (by_id meta cs []) projector id c (by_id-Distinct cs [] tt) h in
      let (there, same) =
        attach_some-credentials (or_null payload) creds
          (build_credentials_envelope meta (by_id meta cs []) projector) built in
      (
        creds,
        wire_entry meta (cookie_target meta projector c) c,
        there,
        found,
        wire_json-metadata projector c,
        rw same sent,
      )

  -- An object's other members are as they were.
  pub assemble-get :
      (ms : Members) (m : Assoc Text (Captured M)) (projector : CookieProjector) (k : Text)
      → (credentials_key == k) ≡ false
      → get k (assemble_envelope_content meta (object ms) m projector).0 ≡ get k (object ms)
  unfolding assemble_envelope_content build_credentials_envelope attach get
  assemble-get ms [] projector k h = refl
  assemble-get ms (e ∷ es) projector k h =
      rw
        (
          get_member-insert_member credentials_key k
              (object (project_each meta projector (sort_by_id (e ∷ es)) end []).0) ms,
          h,
        )
        refl
