-- ===== src/View/Cache/Fresh.antt =====
-- The cache's state: what it keeps was made for its generations.
use plexus_core.Base.{
  ℕ, suc, ◌≤◌, ◌||◌, Option, none, some, [], ◌∷◌, ◌==◌, Eq, ltb, leb, length, ◌≡◌, refl, arith, inl,
  inr, Bool-cases, Option-cases, eq_of_beq, sym, ◌∙◌, nat_eq,
}
use mathlib.Core.Path.{subst}
use plexus_core.Base.Assoc.{Assoc, lookup, insert, remove, lookup-insert}
use plexus_core.View.Cache.{
  max_views, State, or_now, blank, fill_base, views_at, with_room, view_in,
}

pub some_inj {ℓ} : {A : Type ℓ} {a b : A} → ◌≡◌ {A = Option A} (some a) (some b) → a ≡ b
some_inj h = cc

module _ {K V : Type 0} ⦃e : Eq K⦄ where
  length-remove-le : (k : K) (m : Assoc K V) → length (remove k m) ≤ length m
  unfolding remove
  length-remove-le k [] = omega arith
  length-remove-le k ((j, v) ∷ m) = ground (arith, length-remove-le k m)

  lookup-nil : (k : K) → lookup {V = V} k [] ≡ none
  unfolding lookup
  lookup-nil k = refl

  length-insert-le : (k : K) (v : V) (m : Assoc K V) → length (insert k v m) ≤ suc (length m)
  unfolding insert
  length-insert-le k v m = omega (arith, length-remove-le k m)

module _ {K B V : Type 0} ⦃e : Eq K⦄ where
  -- `P n b`: b describes the service as it was at generation n or since; `Q n g w b v`: v is who's
  -- view, decided over b by the grants as they were at generation g or since.
  module _ (P : ℕ → B → Type 0) (Q : ℕ → ℕ → K → B → V → Type 0) where
    pub record IsFresh (st : State K B V) : Type 0 where
      pub described_since : (b : B) → st.base ≡ some b → P st.schema_at b
      pub decided_since :
          (who : K) (v : V)
          → lookup who st.views ≡ some v
          → (b : B) × (st.base ≡ some b) × Q st.schema_at st.grants_at who b v
      pub within : length st.views ≤ max_views

    pub blank-IsFresh : (s g : ℕ) → IsFresh (blank s g)
    unfolding lookup
    blank-IsFresh s g = record {
      described_since = λ b h. cc h;
      decided_since = λ who v h. cc h;
      within = omega arith;
    }

    pub fill_base-IsFresh :
        (now : B) (st : State K B V)
        → P st.schema_at now
        → IsFresh st
        → IsFresh (fill_base now st) × P st.schema_at (or_now st.base now)
    fill_base-IsFresh now st p h = elim (Option-cases st.base) [
      | inl missing ↦ rw missing (
        record {
          described_since = λ b e. subst (λ (x : B). P st.schema_at x) (some_inj e) p;
          decided_since =
              λ who v k. let (b, there, q) = h.decided_since who v k in cc (missing, there);
          within = h.within;
        },
        p,
      )
      | inr (b, there) ↦ rw there (
        record {
          described_since =
              λ x e. subst (λ (x : B). P st.schema_at x) (some_inj e) (h.described_since b there);
          decided_since =
              λ who v k. let (x, same, q) = h.decided_since who v k in (x, sym there ∙ same, q);
          within = h.within;
        },
        h.described_since b there,
      )
    ]

    -- The state whose cells an asker takes is for the generations that it has read.
    abbrev pub IsAt : ℕ → ℕ → State K B V → Type 0
    IsAt s g st = IsFresh st × (st.schema_at ≡ s) × (st.grants_at ≡ g)

    pub views_at-IsAt :
        (s g : ℕ) (st st' : State K B V) → IsFresh st → views_at s g st ≡ some st' → IsAt s g st'
    unfolding views_at
    views_at-IsAt s g st st' h k = elim (Bool-cases (ltb s st.schema_at || ltb g st.grants_at)) [
      | inl stale ↦ cc (rw stale at k)
      | inr timely ↦ elim (Bool-cases (ltb st.schema_at s)) [
        | inl moved ↦
            subst (IsAt s g) (some_inj (rw (timely, moved) at k)) (blank-IsFresh s g, refl, refl)
        | inr same ↦ elim (Bool-cases (ltb st.grants_at g)) [
          | inl changed ↦ subst (IsAt s g) (some_inj (rw (timely, same, changed) at k)) (
            record {
              described_since = h.described_since;
              decided_since = λ who v l. cc (l, lookup-nil who);
              within = omega arith;
            },
            ground arith,
            refl,
          )
          | inr both ↦
              subst (IsAt s g) (some_inj (rw (timely, same, both) at k))
                (h, ground arith, ground arith)
        ]
      ]
    ]

    with_room-IsFresh :
        (st : State K B V)
        → IsFresh st
        → ((who : K) (v : V) → lookup who (with_room st) ≡ some v → lookup who st.views ≡ some v)
          × (suc (length (with_room st)) ≤ max_views)
    unfolding lookup
    with_room-IsFresh st h = elim (Bool-cases (leb max_views (length st.views))) [
      | inl full ↦ rw full (λ who v k. cc k, omega arith)
      | inr room ↦ rw room (λ who v k. k, ground arith)
    ]

    pub view_in-IsFresh :
        (who : K) (decide : B → V) (b : B) (o : Option V) (st : State K B V)
        → lookup who st.views ≡ o
        → st.base ≡ some b
        → Q st.schema_at st.grants_at who b (decide b)
        → IsFresh st
        → IsFresh (view_in who decide b o st).0
          × Q st.schema_at st.grants_at who b (view_in who decide b o st).1
    view_in-IsFresh who decide b (some v) st found there q h =
        let (x, same, r) = h.decided_since who v found in
        (h, subst (λ (y : B). Q st.schema_at st.grants_at who y v) (some_inj (sym same ∙ there)) r)
    view_in-IsFresh who decide b none st missing there q h =
        let (kept, room) = with_room-IsFresh st h in
        (
          record {
            described_since = h.described_since;
            decided_since = λ k v l.
                let found = sym (lookup-insert who k (decide b) (with_room st)) ∙ l in
                elim (Bool-cases (who == k)) [
                  | inl same ↦ (
                    b,
                    there,
                    subst (λ (x : V). Q st.schema_at st.grants_at k b x)
                        (some_inj (rw same at found))
                        (subst (λ (w : K). Q st.schema_at st.grants_at w b (decide b))
                          (eq_of_beq who k same) q),
                  )
                  | inr other ↦ h.decided_since k v (kept k v (rw other at found))
                ];
            within = omega (arith, length-insert-le who (decide b) (with_room st));
          },
          q,
        )
