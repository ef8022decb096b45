-- ===== src/View/Refines.antt =====
-- The view that is kept as indices is the view that is meant, and no index of it is out of range.
mod Methods
mod Activations
use plexus_core.Base.{
  ℕ, zero, suc, ◌+◌, Text, codes, Bool, true, false, Option, none, some, List, [], ◌∷◌, ◌++◌, map,
  if◌then◌else◌, ◌==◌, text_eq, length, ◌≡◌, refl, sym, ap, ap₂, ◌∙◌, arith, inl, inr, ◌⊎◌,
  Bool-cases, Option-cases, append_assoc, append-nil,
}
use plexus_core.Base.Assoc.{Assoc, lookup}
use plexus_core.ContentHash.Canonical.{le_text}
use plexus_core.View.Schema.{MethodSchema, PluginSchema, ChildSummary, ViewKind, is_auto_schema}
use plexus_core.View.Described.{Described, Below, Asker, hollow_of}
use plexus_core.View.Shape.{
  Panics, ◌>>=◌, each, get_elem?, btree_insert, Digest, Kept, Shaped, shown, name_at, kind_of,
  children_of, rehash, kept_schema, filled, option_map,
}
use plexus_core.View.Decide.{
  Held, to_list, pick, decide_method, scan, with_hashes, blank_kept, keep_methods, activation_view,
  collect_one, collect, kept_children, or_empty, not_held, service_of, shape, hash_prefix,
  with_hash,
}
use plexus_core.View.Reading.{View, schemas_of, view}
use plexus_core.View.Agreement.{>>=-eq-some, shown-name, kept_schema-methods, schemas_of-lookup}
use plexus_core.View.Meaning.{
  keeping, methods_shown, entry_shown, names_of, showing, activation_shown, with_shown, all_shown,
  children_listed, view_meant,
}
use plexus_core.View.Described.{new}
use plexus_core.View.Reading.{schema_found}
use plexus_core.View.Refines.Activations.{Reads, Reads-schemas_of, collect-Reads}

module _ {R E : Type 0} (kind : ViewKind) (base : Described R E) where
  hash_found :
      (o : Option Kept) (p : Option (PluginSchema R E))
      → schema_found base kind o ≡ some p
      → option_map (λ (k : Kept). k.hash) o ≡ option_map (λ (s : PluginSchema R E). s.hash) p
  hash_found none p h = let e : none ≡ p = ground arith in rw (← e) refl
  hash_found (some k) p h =
      let (s, made, h') = >>=-eq-some (kept_schema base kind k) (λ s. some (some s)) h in
      let e : some s ≡ p = ground arith in
      let (_, _, _, same) = kept_schema-methods base kind k made in
      rw (← e) (ap (λ (t : Text). some t) (sym same))

  kept_children-listed :
      (m : Assoc Text Kept) (out : Assoc Text (PluginSchema R E)) (cs : List ChildSummary)
      → schemas_of base kind m ≡ some out
      → kept_children m cs ≡ children_listed out cs
  unfolding kept_children children_listed
  kept_children-listed m out [] h = refl
  kept_children-listed m out (c ∷ cs) h =
      ap₂ (with_hash c)
        (hash_found (lookup c.namespace m) (lookup c.namespace out)
          (schemas_of-lookup base kind m c.namespace h))
        (kept_children-listed m out cs h)

module _ {F R E : Type 0} (asker : Asker F) (digest : Digest R E) where
  -- Deciding a view never reads an index that is out of range, and the view kept is, read whole, the
  -- one that is meant: the activations with a method that the caller may use, by name, each with
  -- those methods, then its schema method; the service's own methods, with the activations kept
  -- under the hashes of what is shown of them; and its hash, over what it shows.
  pub shape-view_meant :
      (service : PluginSchema R E) (activations children : List (PluginSchema R E))
      → let base = new service activations children in
        (v : Shaped R E) × (shape digest asker base ≡ some v)
        × (view base v ≡ some (view_meant asker digest base))
  unfolding shape view view_meant service_of new
  shape-view_meant service activations children =
      let base = new service activations children in
      let kind = kind_of asker.who in
      let (kept, made, reads) =
        collect-Reads asker digest kind base refl [] activations [] [] refl tt in
      let shown = Reads-schemas_of asker digest kind base refl kept _ reads in
      let listed = kept_children-listed kind base kept _ (or_empty service.children) shown in
      let v : Shaped R E = record {
        kind = kind;
        hash = (service_of digest kind kept service).hash;
        service = service_of digest kind kept service;
        kept = kept;
      } in
      (v, rw made refl, rw (shown, listed) refl)
