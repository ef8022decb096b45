-- ===== src/Credentials/Tests.antt =====
-- Credentials at concrete items.
use plexus_core.Base.{Text, codes, true, Option, none, some, List, [], ◌∷◌, ◌≡◌, refl, text_eq}
use plexus_core.Base.Assoc.{lookup, insert, remove}
use plexus_core.Errors.{negsuc}
use plexus_core.Json.{
  Value, null, string, number, object, member, end, get, get_member, insert_member,
}
use plexus_core.ContentHash.Canonical.{le_text}
use plexus_core.Credentials.{
  all_cookies, no_cookies, projects, Captured, CookieProjectionHint, MetadataOps, sort_by_id,
  insert_by_id, cookie_target, project_each, captured_to_wire_json, credentials_key, metadata_key,
  value_key, or_null, by_id, build_credentials_envelope, attach, assemble_envelope_content,
  serialize_with_credential_capture, value_str, format_set_cookie_header,
  check_returns_schema_for_credentials_collision,
}
use plexus_core.Credentials.Envelope.{Sent, assemble-Sent}

-- The metadata is the cookie's name, if it is one.
abbrev names : MetadataOps (Option Text)
names = record {
  cookie = λ o. o;
  to_value = λ o. some null;
  seconds_left = λ now o. some (negsuc 4);
}

abbrev session : Captured (Option Text)
session = record { value = string (codes "s3"); metadata = some (codes "sid") }

abbrev token : Captured (Option Text)
token = record { value = string (codes "t7"); metadata = none }

abbrev captured : List (Text × Captured (Option Text))
captured = (codes "b", session) ∷ (codes "a", token) ∷ []

abbrev hint : CookieProjectionHint (Option Text)
hint = record {
  cookie_name = codes "sid";
  cookie_value = string (codes "s3");
  metadata = some (codes "sid");
}

program : Unit {0}
unfolding le_text insert lookup remove get get_member insert_member projects sort_by_id insert_by_id
    cookie_target project_each captured_to_wire_json by_id build_credentials_envelope attach
    assemble_envelope_content serialize_with_credential_capture value_str format_set_cookie_header
    check_returns_schema_for_credentials_collision
program = tt

both :
    assemble_envelope_content names
      (object (member (codes "x") null end))
      (by_id names captured [])
      all_cookies
    ≡ (
      object (
          member (codes "x") null (
            member credentials_key
              (object (
                member
                  (codes "a")
                  (object (member value_key (string (codes "t7")) (member metadata_key null end)))
                  (member (codes "b") (object (member metadata_key null end)) end)))
              end)),
      hint ∷ [],
    )
unfolding program
both = refl

plain :
    assemble_envelope_content names (number (codes "5")) [] all_cookies ≡ (number (codes "5"), [])
unfolding program
plain = refl

wrapped :
    get
      (codes "value")
      (assemble_envelope_content names (number (codes "5")) (by_id names captured []) no_cookies).0
    ≡ some (number (codes "5"))
unfolding program
wrapped = refl

header :
    format_set_cookie_header names (λ v. []) (λ n. codes "0") 0 hint
    ≡ codes "sid=s3; HttpOnly; Secure; SameSite=None; Path=/; Max-Age=0"
unfolding program
header = refl

collision :
    check_returns_schema_for_credentials_collision
      (object (member (codes "properties") (object (member credentials_key null end)) end))
    ≡ true
unfolding program
collision = refl

assemble-Sent_example :
    let (body, m) = serialize_with_credential_capture names (some null) captured in
    let (content, hints) = assemble_envelope_content names body m all_cookies in
    (creds : Value) × (entry : Value) × (get credentials_key content ≡ some creds)
    × (get (codes "b") creds ≡ some entry)
    × (get metadata_key entry ≡ some (or_null (names.to_value session.metadata)))
    × Sent names all_cookies (some (codes "sid")) session entry hints
unfolding program
assemble-Sent_example =
    assemble-Sent names (some null) captured all_cookies (codes "b") session refl
