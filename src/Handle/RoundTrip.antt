-- ===== src/Handle/RoundTrip.antt =====
-- `FromStr` and `Display` of a handle are inverse to one another, as far as texts allow.
use plexus_core.Base.{
  Text, codes, Option, none, some, [], ◌++◌, ◌≡◌, refl, arith, All, Option-cases, inl, inr,
}
use plexus_core.Base.Texts.{
  split_once, split, prefixed, Avoids, split_once-append, split_once_sound, split-prefixed,
  split-Avoids, split-cons,
}
use plexus_core.Errors.{ok}
use plexus_core.Handle.{UuidText, Handle, ParseError, option_ok, method_and_meta, display, from_str}

-- No colon in the version, the method or a piece of metadata.
pub record HasNoColons {Uuid : Type 0} (h : Handle Uuid) : Type 0 where
  pub version : Avoids b':' h.version
  pub method : Avoids b':' h.method
  pub meta : All (Avoids b':') h.meta

module _ {Uuid : Type 0} (uuid : UuidText Uuid) where
  -- A displayed handle whose version, method and metadata hold no colon parses to itself.
  pub from_str-display : (h : Handle Uuid) → HasNoColons h → from_str uuid (display uuid h) ≡ ok h
  unfolding from_str display
  from_str-display h c =
      rw
        (
          split_once-append b'@' [] (uuid.show h.plugin_id) _ (uuid.show-Avoids_at h.plugin_id),
          uuid.parse-show h.plugin_id,
          split_once-append b':' (codes ":") h.version _ c.version,
          split-prefixed b':' h.method h.meta c.method c.meta,
        )
        refl

option_ok-eq-ok {ℓ} :
    {A : Type ℓ} (e : ParseError) (o : Option A) {a : A} → option_ok e o ≡ ok a → o ≡ some a
option_ok-eq-ok e none h = cc
option_ok-eq-ok e (some x) h = ground arith

module _ {Uuid : Type 0} where
  -- The parts of a text that was split at its colons are those of the handle.
  method_and_meta_sound :
      (s : Text) (id : Uuid) (v tail : Text) (h : Handle Uuid)
      → method_and_meta s id v (split b':' tail) ≡ ok h
      → (id ≡ h.plugin_id)
        × (v ≡ h.version)
        × (tail ≡ h.method ++ prefixed b':' h.meta)
        × Avoids b':' h.method
        × All (Avoids b':') h.meta
  method_and_meta_sound s id v tail h e =
      let (m, ms, parts, whole) = split-cons b':' tail in
      let (here, rest) = rw parts at (split-Avoids b':' tail) in
      let same : ok (record { plugin_id = id; version = v; method = m; meta = ms }) ≡ ok h =
        rw parts at e in
      ground arith

module _ {Uuid : Type 0} (uuid : UuidText Uuid) where
  -- Whatever parses was the text of its result, its id perhaps spelt another way, and the parsed
  -- method and metadata hold no colon.
  pub from_str_sound :
      (s : Text) (h : Handle Uuid)
      → from_str uuid s ≡ ok h
      → (id : Text) × (uuid.parse id ≡ some h.plugin_id)
        × (s
            ≡ id
              ++ (codes "@" ++ (h.version ++ (codes "::" ++ (h.method ++ prefixed b':' h.meta)))))
        × Avoids b':' h.method
        × All (Avoids b':') h.meta
  unfolding from_str
  from_str_sound s h e = elim (Option-cases (split_once (codes "@") s)) [
    | inl missed ↦ cc (rw missed at e)
    | inr ((id, rest), at) ↦
        let e₁ = rw at at e in
        elim (Option-cases (uuid.parse id)) [
          | inl missed ↦ cc (rw missed at e₁)
          | inr (u, read) ↦
              let e₂ = rw read at e₁ in
              elim (Option-cases (split_once (codes "::") rest)) [
                | inl missed ↦ cc (rw missed at e₂)
                | inr ((v, tail), colons) ↦
                    let e₃ = rw colons at e₂ in
                    let (same_id, same_v, same_tail, method, meta) =
                      method_and_meta_sound s u v tail h e₃ in
                    (
                      id,
                      rw (← same_id) read,
                      cc (
                        split_once_sound (codes "@") s id rest at,
                        split_once_sound (codes "::") rest v tail colons,
                        same_v,
                        same_tail,
                      ),
                      method,
                      meta,
                    )
              ]
        ]
  ]

  -- A handle whose text parses back to it has no colon in its method or in its metadata: with
  -- one there, the round trip fails.
  pub display-colons :
      (h : Handle Uuid)
      → from_str uuid (display uuid h) ≡ ok h
      → Avoids b':' h.method × All (Avoids b':') h.meta
  display-colons h e = let found = from_str_sound (display uuid h) h e in (found.3, found.4)
