-- ===== src/Routing/Plugins.antt =====
-- `PluginRegistry` (src/plexus/plexus.rs): activations by id and by path.
use plexus_core.Base.{
  ℕ, Text, Bool, true, false, Option, none, some, List, [], ◌∷◌, ◌≡◌, refl, sym, ◌∙◌, ap,
  Bool-cases, inl, inr, arith, ◌==◌, nat_eq, text_eq, beq_self, if◌then◌else◌,
}
use plexus_core.Base.Assoc.{Assoc, lookup, insert, lookup-insert}

pub record PluginEntry : Type 0 where
  pub id : ℕ
  pub path : Text
  pub plugin_type : Text

pub record PluginRegistry : Type 0 where
  pub by_id : Assoc ℕ PluginEntry
  pub by_path : Assoc Text ℕ

abbrev pub empty : PluginRegistry
empty = record { by_id = []; by_path = [] }

abbrev pub path_of : Option PluginEntry → Option Text
path_of none = none
path_of (some e) = some e.path

unfoldable pub lookup_path : ℕ → PluginRegistry → Option Text
unfolding lookup
lookup_path id r = path_of (lookup id r.by_id)

unfoldable pub lookup_by_path : Text → PluginRegistry → Option ℕ
unfolding lookup
lookup_by_path path r = lookup path r.by_path

unfoldable pub register : ℕ → (path plugin_type : Text) → PluginRegistry → PluginRegistry
unfolding insert
register id path plugin_type r = record {
  by_id = insert id (record { id = id; path = path; plugin_type = plugin_type }) r.by_id;
  by_path = insert path id r.by_path;
}

pub record Registration : Type 0 where
  pub id : ℕ
  pub path : Text
  pub plugin_type : Text

unfoldable pub register_all : List Registration → PluginRegistry → PluginRegistry
unfolding register
register_all [] r = r
register_all (a ∷ rest) r = register_all rest (register a.id a.path a.plugin_type r)

-- Every path that is found names a registered activation.
abbrev pub IsClosed : PluginRegistry → Type 0
IsClosed r =
    (path : Text) (id : ℕ)
    → lookup_by_path path r ≡ some id
    → (now : Text) × (lookup_path id r ≡ some now)

path_of-if :
    (b : Bool) (e : PluginEntry) (o : Option PluginEntry) {now : Text}
    → path_of o ≡ some now
    → (now' : Text) × (path_of (if b then some e else o) ≡ some now')
path_of-if true e o h = (e.path, refl)
path_of-if false e o {now} h = (now, h)

register-lookup_path :
    (id j : ℕ) (path plugin_type : Text) (r : PluginRegistry)
    → lookup_path j (register id path plugin_type r)
      ≡ path_of (
          if id == j
          then some (record { id = id; path = path; plugin_type = plugin_type })
          else lookup j r.by_id)
unfolding lookup_path register
register-lookup_path id j path plugin_type r =
    ap path_of
      (lookup-insert id j (record { id = id; path = path; plugin_type = plugin_type }) r.by_id)

register-lookup_by_path :
    (id : ℕ) (path q plugin_type : Text) (r : PluginRegistry)
    → lookup_by_path q (register id path plugin_type r)
      ≡ (if path == q then some id else lookup_by_path q r)
unfolding lookup_by_path register
register-lookup_by_path id path q plugin_type r = lookup-insert path q id r.by_path

-- The last registration is found both ways.
register-found :
    (id : ℕ) (path plugin_type : Text) (r : PluginRegistry)
    → (lookup_by_path path (register id path plugin_type r) ≡ some id)
      × (lookup_path id (register id path plugin_type r) ≡ some path)
register-found id path plugin_type r = (
  register-lookup_by_path id path path plugin_type r ∙ rw (beq_self path) refl,
  register-lookup_path id id path plugin_type r ∙ rw (beq_self id) refl,
)

register-IsClosed :
    (id : ℕ) (path plugin_type : Text) (r : PluginRegistry)
    → IsClosed r
    → IsClosed (register id path plugin_type r)
unfolding lookup_path
register-IsClosed id path plugin_type r h q j found =
    let found' = sym (register-lookup_by_path id path q plugin_type r) ∙ found in
    elim (Bool-cases (path == q)) [
      | inl same ↦
          let e : id ≡ j = ground arith in
          (
            path,
            ap (λ k. lookup_path k (register id path plugin_type r)) (sym e)
                ∙ (register-found id path plugin_type r).1,
          )
      | inr ne ↦
          let old : lookup_by_path q r ≡ some j = ground arith in
          let (now, is) = h q j old in
          let (now', is') =
            path_of-if (id == j) (record { id = id; path = path; plugin_type = plugin_type })
              (lookup j r.by_id) is in
          (now', register-lookup_path id j path plugin_type r ∙ is')
    ]

register_all-keeps :
    (rest : List Registration) (r : PluginRegistry) → IsClosed r → IsClosed (register_all rest r)
unfolding register_all
register_all-keeps [] r h = h
register_all-keeps (a ∷ rest) r h =
    register_all-keeps rest (register a.id a.path a.plugin_type r)
      (register-IsClosed a.id a.path a.plugin_type r h)

empty-IsClosed : IsClosed empty
unfolding lookup_by_path
empty-IsClosed path id h = cc

-- After any registrations, every path that is found names a registered activation, and what was
-- registered last is found by its path and by its id.
pub register_all-IsClosed :
    (rest : List Registration) (id : ℕ) (path plugin_type : Text)
    → IsClosed (register id path plugin_type (register_all rest empty))
      × (lookup_by_path path (register id path plugin_type (register_all rest empty)) ≡ some id)
      × (lookup_path id (register id path plugin_type (register_all rest empty)) ≡ some path)
register_all-IsClosed rest id path plugin_type =
    let r = register_all rest empty in
    let (by_path, by_id) = register-found id path plugin_type r in
    (
      register-IsClosed id path plugin_type r (register_all-keeps rest empty empty-IsClosed),
      by_path,
      by_id,
    )
