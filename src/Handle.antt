-- ===== src/Handle.antt =====
-- Typed references to method results (src/types.rs): `Handle`, its text form, `Envelope`.
-- `uuid::Uuid` is a parameter: its text, its reader, and that the reader reads the text.
pub mod RoundTrip
mod Tests
use plexus_core.Base.{Text, codes, Option, none, some, List, [], ◌∷◌, ◌++◌, ◌≡◌}
use plexus_core.Base.Texts.{split_once, split, prefixed, Avoids}
use plexus_core.Errors.{Result, ok, err, ◌>>=◌}

-- The uuid crate: `Display`, `FromStr`, and that a displayed id reads back and holds no '@'.
pub record UuidText (Uuid : Type 0) : Type 0 where
  pub show : Uuid → Text
  pub parse : Text → Option Uuid
  pub parse-show : (u : Uuid) → parse (show u) ≡ some u
  pub show-Avoids_at : (u : Uuid) → Avoids b'@' (show u)

pub record Handle (Uuid : Type 0) : Type 0 where
  pub plugin_id : Uuid
  pub version : Text
  pub method : Text
  pub meta : List Text

pub record Origin (Uuid : Type 0) : Type 0 where
  pub plugin_id : Uuid
  pub method : Text

pub record Envelope (Uuid T : Type 0) : Type 0 where
  pub origin : Origin Uuid
  pub payload : T

-- The messages of `from_str`, each with the text that it names.
pub data ParseError : Type 0 where
  missing_at : Text → ParseError
  invalid_uuid : Text → ParseError
  missing_separator : Text → ParseError
  missing_method : Text → ParseError

module _ {Uuid : Type 0} where
  pub new : Uuid → Text → Text → Handle Uuid
  new id v m = record { plugin_id = id; version = v; method = m; meta = [] }

  pub with_meta : List Text → Handle Uuid → Handle Uuid
  with_meta items h = record h { meta = items }

  pub push_meta : Text → Handle Uuid → Handle Uuid
  push_meta item h = record h { meta = h.meta ++ item ∷ [] }

  -- Handle::origin
  pub handle_origin : Handle Uuid → Origin Uuid
  handle_origin h = record { plugin_id = h.plugin_id; method = h.method }

  pub from_handle : {T : Type 0} → Handle Uuid → T → Envelope Uuid T
  unfolding handle_origin
  from_handle h x = record { origin = handle_origin h; payload = x }

  -- Envelope::map
  pub map_envelope : {T U : Type 0} → (T → U) → Envelope Uuid T → Envelope Uuid U
  map_envelope f e = record { origin = e.origin; payload = f e.payload }

abbrev pub option_ok {ℓ} : {A : Type ℓ} → ParseError → Option A → Result ParseError A
option_ok e none = err e
option_ok e (some a) = ok a

module _ {Uuid : Type 0} where
  -- `parts.next()` and the rest of the parts
  abbrev pub method_and_meta : Text → Uuid → Text → List Text → Result ParseError (Handle Uuid)
  method_and_meta s id v [] = err (missing_method s)
  method_and_meta s id v (m ∷ ms) =
      ok (record { plugin_id = id; version = v; method = m; meta = ms })

module _ {Uuid : Type 0} (uuid : UuidText Uuid) where
  -- {plugin_id}@{version}::{method}:meta[0]:meta[1]:...
  unfoldable pub display : Handle Uuid → Text
  display h =
      uuid.show h.plugin_id
      ++ (codes "@" ++ (h.version ++ (codes "::" ++ (h.method ++ prefixed b':' h.meta))))

  unfoldable pub from_str : Text → Result ParseError (Handle Uuid)
  from_str s = do
    (plugin_id_str, rest) ← option_ok (missing_at s) (split_once (codes "@") s)
    plugin_id ← option_ok (invalid_uuid plugin_id_str) (uuid.parse plugin_id_str)
    (version, tail) ← option_ok (missing_separator s) (split_once (codes "::") rest)
    method_and_meta s plugin_id version (split b':' tail)
