-- ===== src/View/Cache/Runs.antt =====
-- What the cache gives was made for the generations that its asker had read.
use plexus_core.Base.{
  ℕ, Option, none, some, List, [], ◌∷◌, Eq, ltb, ◌≡◌, refl, arith, inl, inr, Bool-cases, All,
  nat_eq,
}
use mathlib.Core.Path.{subst}
use plexus_core.Base.Word.{add64}
use plexus_core.Base.Assoc.{lookup}
use plexus_core.View.Cache.{
  State, Cache, Event, moves, resets, describes, shapes, Answer, or_now, empty, schema_moved, reset,
  base_at, fill_base, describe_in, described, views_at, view_in, answer_in, shaped, run,
}
use plexus_core.View.Cache.Fresh.{
  some_inj, IsFresh, IsAt, blank-IsFresh, fill_base-IsFresh, views_at-IsAt, view_in-IsFresh,
}

module _ {K B V : Type 0} ⦃e : Eq K⦄ where
  module _ (P : ℕ → B → Type 0) (Q : ℕ → ℕ → K → B → V → Type 0) where
    -- What an asker builds, it builds after it has read the generations.
    abbrev pub IsHonest : Event K B V → Type 0
    IsHonest moves = Unit
    IsHonest resets = Unit
    IsHonest (describes s now) = P s now
    IsHonest (shapes s g who now decide) = P s now × ((b : B) → P s b → Q s g who b (decide b))

    abbrev pub IsCurrent : Answer K B V → Type 0
    IsCurrent a = P a.schema_at a.base × Q a.schema_at a.grants_at a.who a.base a.view

    answer_in-IsFresh :
        (s g : ℕ) (who : K) (now : B) (decide : B → V) (c : Cache K B V) (o : Option (State K B V))
        → P s now
        → ((b : B) → P s b → Q s g who b (decide b))
        → IsFresh P Q c.state
        → ((st : State K B V) → o ≡ some st → IsAt P Q s g st)
        → let (c', b, v) = answer_in who now decide o c in
          IsFresh P Q c'.state × P s b × Q s g who b v
    answer_in-IsFresh s g who now decide c none p q h taken = (h, p, q now p)
    answer_in-IsFresh s g who now decide c (some st) p q h taken =
        let (fresh, at, since) = taken st refl in
        let (filled, described_as) = fill_base-IsFresh P Q now st (rw at p) fresh in
        let base = or_now st.base now in
        let (kept, decided) =
          view_in-IsFresh P Q who decide base (lookup who st.views) (fill_base now st) refl refl
            (rw (at, since) (q base (rw at at described_as))) filled in
        let view = (view_in who decide base (lookup who st.views) (fill_base now st)).1 in
        (
          kept,
          rw at at described_as,
          subst (λ (n : ℕ). Q s n who base view) since
              (subst (λ (n : ℕ). Q n st.grants_at who base view) at decided),
        )

    shaped-IsFresh :
        (s g : ℕ) (who : K) (now : B) (decide : B → V) (c : Cache K B V)
        → P s now
        → ((b : B) → P s b → Q s g who b (decide b))
        → IsFresh P Q c.state
        → let (c', b, v) = shaped s g who now decide c in
          IsFresh P Q c'.state × P s b × Q s g who b v
    unfolding shaped
    shaped-IsFresh s g who now decide c p q h =
        answer_in-IsFresh s g who now decide c (views_at s g c.state) p q h
          (λ st taken. views_at-IsAt P Q s g c.state st h taken)

    describe_in-IsFresh :
        (s : ℕ) (now : B) (c : Cache K B V) (o : Option (State K B V))
        → P s now
        → IsFresh P Q c.state
        → ((st : State K B V) → o ≡ some st → IsFresh P Q st × (st.schema_at ≡ s))
        → IsFresh P Q (describe_in now o c).0.state × P s (describe_in now o c).1
    describe_in-IsFresh s now c none p h taken = (h, p)
    describe_in-IsFresh s now c (some st) p h taken =
        let (fresh, at) = taken st refl in
        let (filled, described_as) = fill_base-IsFresh P Q now st (rw at p) fresh in
        (filled, rw at at described_as)

    base_at-IsFresh :
        (s : ℕ) (st st' : State K B V)
        → IsFresh P Q st
        → base_at s st ≡ some st'
        → IsFresh P Q st' × (st'.schema_at ≡ s)
    unfolding base_at
    base_at-IsFresh s st st' h k = elim (Bool-cases (ltb s st.schema_at)) [
      | inl stale ↦ cc (rw stale at k)
      | inr timely ↦ elim (Bool-cases (ltb st.schema_at s)) [
        | inl moved ↦
            subst (λ (x : State K B V). IsFresh P Q x × (x.schema_at ≡ s))
              (some_inj (rw (timely, moved) at k)) (blank-IsFresh P Q s st.grants_at, refl)
        | inr same ↦
            subst (λ (x : State K B V). IsFresh P Q x × (x.schema_at ≡ s))
              (some_inj (rw (timely, same) at k)) (h, ground arith)
      ]
    ]

    described-IsFresh :
        (s : ℕ) (now : B) (c : Cache K B V)
        → P s now
        → IsFresh P Q c.state
        → IsFresh P Q (described s now c).0.state × P s (described s now c).1
    unfolding described
    described-IsFresh s now c p h =
        describe_in-IsFresh s now c (base_at s c.state) p h
          (λ st taken. base_at-IsFresh s c.state st h taken)

    run-fresh_from :
        (es : List (Event K B V)) (c : Cache K B V)
        → IsFresh P Q c.state
        → All IsHonest es
        → All IsCurrent (run es c)
    unfolding run schema_moved reset
    run-fresh_from [] c h hs = tt
    run-fresh_from (moves ∷ es) c h (_, hs) = run-fresh_from es (schema_moved c) h hs
    run-fresh_from (resets ∷ es) c h (_, hs) =
        run-fresh_from es (reset c) (blank-IsFresh P Q (add64 c.schema_generation 1) 0) hs
    run-fresh_from (describes s now ∷ es) c h (p, hs) =
        run-fresh_from es (described s now c).0 (described-IsFresh s now c p h).0 hs
    run-fresh_from (shapes s g who now decide ∷ es) c h ((p, q), hs) =
        let (fresh, described_as, decided) = shaped-IsFresh s g who now decide c p q h in
        ((described_as, decided), run-fresh_from es (shaped s g who now decide c).0 fresh hs)

    -- In whatever order askers come, with whatever generations they have read, and whenever something
    -- moves or the service is built anew: each is given a description and a view of it that were made
    -- for the generations that it had read, for itself, where each asker builds what it builds after
    -- reading them.
    pub run-IsCurrent : (es : List (Event K B V)) → All IsHonest es → All IsCurrent (run es empty)
    unfolding empty
    run-IsCurrent es hs = run-fresh_from es empty (blank-IsFresh P Q 0 0) hs
