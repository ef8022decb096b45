-- ===== src/View/Agreement.antt =====
-- A view answers as it is kept what it answers whole.
use plexus_core.Base.{
  ℕ, Text, Option, none, some, List, [], ◌∷◌, ◌==◌, text_eq, ◌≡◌, refl, ◌∙◌, arith, inl, inr,
  Bool-cases,
}
use plexus_core.Base.Assoc.{Assoc, lookup}
use plexus_core.View.Schema.{MethodSchema, PluginSchema, ViewKind}
use plexus_core.View.Described.{Described}
use plexus_core.View.Shape.{
  Panics, ◌>>=◌, each, get_elem?, Kept, Shaped, shown, name_at, kept_schema, filled,
}
use plexus_core.View.Reading.{
  View, find_method, view_schema_of, schemas_of, view, schema_found, schema_of, find_kept,
  method_found, method_of,
}

-- A step of a chain that does not panic.
pub >>=-eq-some {ℓ κ} :
    {A : Type ℓ} {B : Type κ} (m : Panics A) (f : A → Panics B) {b : B}
    → (m >>= f) ≡ some b
    → (a : A) × (m ≡ some a) × (f a ≡ some b)
>>=-eq-some none f h = cc
>>=-eq-some (some a) f h = (a, refl, h)

module _ {R : Type 0} where
  pub shown-name :
      (methods : List (MethodSchema R)) (p : ℕ × Option (List Text)) {m : MethodSchema R}
      → shown methods p ≡ some m
      → name_at methods p ≡ some m.name
  unfolding shown
  shown-name methods (i, held) h =
      let (n, at, e) =
        >>=-eq-some (get_elem? methods i) (λ n. some (record n { held_on = held })) h in
      rw at (ground arith)

  find_kept-find_method :
      (name : Text) (methods : List (MethodSchema R)) (ps : List (ℕ × Option (List Text)))
      {out : List (MethodSchema R)}
      → each (shown methods) ps ≡ some out
      → find_kept name methods ps ≡ some (find_method name out)
  unfolding each find_kept find_method
  find_kept-find_method name methods [] h = ground arith
  find_kept-find_method name methods (p ∷ ps) h =
      let (m, first, h') =
        >>=-eq-some (shown methods p) (λ m. each (shown methods) ps >>= λ ms. some (m ∷ ms)) h in
      let (ms, rest, e) = >>=-eq-some (each (shown methods) ps) (λ ms. some (m ∷ ms)) h' in
      rw (shown-name methods p first, first)
        (ground (arith, find_kept-find_method name methods ps rest))

abbrev pub option_bind {ℓ κ} : {A : Type ℓ} {B : Type κ} → Option A → (A → Option B) → Option B
option_bind none f = none
option_bind (some a) f = f a

module _ {R E : Type 0} (base : Described R E) where
  pub kept_schema-methods :
      (kind : ViewKind) (k : Kept) {s : PluginSchema R E}
      → kept_schema base kind k ≡ some s
      → (source : PluginSchema R E) × (get_elem? base.activations k.at ≡ some source)
        × (each (shown source.methods) k.methods ≡ some s.methods)
        × (s.hash ≡ k.hash)
  unfolding kept_schema
  kept_schema-methods kind k h =
      let (source, at, h1) =
        >>=-eq-some (get_elem? base.activations k.at)
          (λ source. get_elem? base.hollow k.at >>= λ s.
            each (shown source.methods) k.methods >>= λ ms. some (filled kind k s ms))
          h in
      let (empty, hollow, h2) =
        >>=-eq-some (get_elem? base.hollow k.at)
          (λ s. each (shown source.methods) k.methods >>= λ ms. some (filled kind k s ms)) h1 in
      let (ms, all, e) =
        >>=-eq-some (each (shown source.methods) k.methods) (λ ms. some (filled kind k empty ms))
          h2 in
      (source, at, all ∙ ground arith, ground arith)

  pub schemas_of-lookup :
      (kind : ViewKind) (m : Assoc Text Kept) (ns : Text) {out : Assoc Text (PluginSchema R E)}
      → schemas_of base kind m ≡ some out
      → schema_found base kind (lookup ns m) ≡ some (lookup ns out)
  unfolding schemas_of lookup
  schemas_of-lookup kind [] ns h = ground arith
  schemas_of-lookup kind ((j, k) ∷ m) ns {out} h =
      let (s, first, h') =
        >>=-eq-some (kept_schema base kind k)
          (λ s. schemas_of base kind m >>= λ rest. some ((j, s) ∷ rest)) h in
      let (rest, more, e) =
        >>=-eq-some (schemas_of base kind m) (λ rest. some ((j, s) ∷ rest)) h' in
      let made : ◌≡◌ {A = Assoc Text (PluginSchema R E)} ((j, s) ∷ rest) out = ground arith in
      rw (← made) (elim (Bool-cases (j == ns)) [
        | inl here ↦ rw (here, first) refl
        | inr beyond ↦ rw beyond (schemas_of-lookup kind m ns more)
      ])

  method_found-schema_found :
      (kind : ViewKind) (o : Option Kept) (name : Text) {found : Option (PluginSchema R E)}
      → schema_found base kind o ≡ some found
      → method_found base name o ≡ some (option_bind found (λ s. find_method name s.methods))
  method_found-schema_found kind none name {found} h =
      let e : none ≡ found = ground arith in rw (← e) refl
  method_found-schema_found kind (some k) name {found} h =
      let (s, made, h') = >>=-eq-some (kept_schema base kind k) (λ s. some (some s)) h in
      let e : some s ≡ found = ground arith in
      let (source, at, all, _) = kept_schema-methods kind k made in
      rw (← e, at) (find_kept-find_method name source.methods k.methods all)

  -- Reading the view as it is kept says what the whole view says.
  pub reads-view :
      (v : Shaped R E) (w : View R E) (ns name : Text)
      → view base v ≡ some w
      → (schema_of base v ns ≡ some (view_schema_of w ns))
        × (method_of base v ns name
            ≡ some (option_bind (view_schema_of w ns) (λ s. find_method name s.methods)))
  unfolding view schema_of method_of view_schema_of
  reads-view v w ns name h =
      let (all, made, e) =
        >>=-eq-some (schemas_of base v.kind v.kept)
          (λ all.
            some (record { kind = v.kind; schema = v.service; hash = v.hash; activations = all }))
          h in
      let found = schemas_of-lookup v.kind v.kept ns made in
      let same : ◌≡◌ {A = View R E}
          (record { kind = v.kind; schema = v.service; hash = v.hash; activations = all }) w =
        ground arith in
      rw (← same) (elim (Bool-cases (ns == v.service.namespace)) [
        | inl own ↦ rw own (refl, refl)
        | inr other ↦
            rw other (found, method_found-schema_found v.kind (lookup ns v.kept) name found)
      ])
