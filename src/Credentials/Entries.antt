-- ===== src/Credentials/Entries.antt =====
-- Sorting and collecting the captured credentials lose none and mix none up.
use plexus_core.Base.{
  Text, Option, none, some, List, [], ◌∷◌, ◌++◌, ◌≡◌, refl, ap, arith, inl, inr, ◌==◌, text_eq,
  nat_eq, text_beq_iff, All, Bool-cases, if_cases, eq_of_beq,
}
use plexus_core.Base.Assoc.{Assoc, lookup, insert, remove, lookup-remove}
use plexus_core.ContentHash.Canonical.{le_text}
use plexus_core.Credentials.{insert_by_id, sort_by_id}

module _ {A : Type 0} where
  -- Where one stands in a list.
  abbrev pub StandsIn : A → List A → Type 0
  StandsIn e es = (pre : List A) × (post : List A) × (es ≡ pre ++ (e ∷ post))

  pub StandsIn-cons : (e f : A) (es : List A) → StandsIn e es → StandsIn e (f ∷ es)
  StandsIn-cons e f es (pre, post, h) = (f ∷ pre, post, ap (λ (l : List A). f ∷ l) h)

  pub StandsIn-append_left : (e : A) (fs es : List A) → StandsIn e es → StandsIn e (fs ++ es)
  StandsIn-append_left e [] es h = h
  StandsIn-append_left e (f ∷ fs) es h =
      StandsIn-cons e f (fs ++ es) (StandsIn-append_left e fs es h)

module _ {A : Type 0} where
  -- Every entry under the id is this one, and there is one.
  abbrev pub OnlyEntry : Text → A → List (Text × A) → Type 0
  OnlyEntry id a es = All (λ e. e.0 ≡ id → e.1 ≡ a) es

  OnlyEntry-insert_by_id :
      (id : Text) (a : A) (e : Text × A) (es : List (Text × A))
      → (e.0 ≡ id → e.1 ≡ a)
      → OnlyEntry id a es
      → OnlyEntry id a (insert_by_id e es)
  unfolding insert_by_id
  OnlyEntry-insert_by_id id a e [] h hs = (h, tt)
  OnlyEntry-insert_by_id id a e (f ∷ fs) h (k, hs) =
      if_cases (OnlyEntry id a) (le_text e.0 f.0) (λ _. (h, (k, hs)))
        (λ _. (k, OnlyEntry-insert_by_id id a e fs h hs))

  pub OnlyEntry-sort_by_id :
      (id : Text) (a : A) (es : List (Text × A))
      → OnlyEntry id a es
      → OnlyEntry id a (sort_by_id es)
  unfolding sort_by_id
  OnlyEntry-sort_by_id id a [] h = tt
  OnlyEntry-sort_by_id id a (e ∷ es) (h, hs) =
      OnlyEntry-insert_by_id id a e (sort_by_id es) h (OnlyEntry-sort_by_id id a es hs)

  insert_by_id-StandsIn_self :
      (e : Text × A) (es : List (Text × A)) → StandsIn e (insert_by_id e es)
  unfolding insert_by_id
  insert_by_id-StandsIn_self e [] = ([], [], refl)
  insert_by_id-StandsIn_self e (f ∷ fs) =
      if_cases (StandsIn e) (le_text e.0 f.0) (λ _. ([], f ∷ fs, refl))
        (λ _. StandsIn-cons e f (insert_by_id e fs) (insert_by_id-StandsIn_self e fs))

  insert_by_id-StandsIn :
      (d e : Text × A) (pre post : List (Text × A))
      → StandsIn d (insert_by_id e (pre ++ (d ∷ post)))
  unfolding insert_by_id
  insert_by_id-StandsIn d e [] post =
      if_cases (StandsIn d) (le_text e.0 d.0) (λ _. (e ∷ [], post, refl))
        (λ _. ([], insert_by_id e post, refl))
  insert_by_id-StandsIn d e (f ∷ pre) post =
      if_cases (StandsIn d) (le_text e.0 f.0) (λ _. (e ∷ f ∷ pre, post, refl))
        (λ _.
          StandsIn-cons d f (insert_by_id e (pre ++ (d ∷ post)))
            (insert_by_id-StandsIn d e pre post))

  insert_by_id-keeps :
      (d e : Text × A) (es : List (Text × A)) → StandsIn d es → StandsIn d (insert_by_id e es)
  insert_by_id-keeps d e es (pre, post, h) = rw h (insert_by_id-StandsIn d e pre post)

  -- One entry under each id.
  abbrev pub Distinct : Assoc Text A → Type 0
  Distinct [] = Unit
  Distinct (e ∷ es) = (lookup e.0 es ≡ none) × Distinct es

  absent-OnlyEntry :
      (id : Text) (a : A) (es : Assoc Text A) → lookup id es ≡ none → OnlyEntry id a es
  unfolding lookup
  absent-OnlyEntry id a [] h = tt
  absent-OnlyEntry id a ((j, v) ∷ es) h = elim (Bool-cases (j == id)) [
    | inl same ↦ cc (rw same at h)
    | inr other ↦
        (λ e. cc (other, (text_beq_iff j id).1 e), absent-OnlyEntry id a es (rw other at h))
  ]

  pub lookup-OnlyEntry :
      (id : Text) (a : A) (es : Assoc Text A)
      → Distinct es
      → lookup id es ≡ some a
      → OnlyEntry id a es × StandsIn (id, a) (sort_by_id es)
  unfolding lookup sort_by_id
  lookup-OnlyEntry id a [] d h = cc
  lookup-OnlyEntry id a ((j, v) ∷ es) (new, d) h = elim (Bool-cases (j == id)) [
    | inl same ↦
        let e : j ≡ id = eq_of_beq j id same in
        let f : ◌≡◌ {A = Option A} (some v) (some a) = rw same at h in
        let g : v ≡ a = ground arith in
        (
          (λ _. g, absent-OnlyEntry id a es (rw e at new)),
          rw (e, g) (insert_by_id-StandsIn_self (id, a) (sort_by_id es)),
        )
    | inr other ↦
        let (only, stands) = lookup-OnlyEntry id a es d (rw other at h) in
        (
          (λ e. cc (other, (text_beq_iff j id).1 e), only),
          insert_by_id-keeps (id, a) (j, v) (sort_by_id es) stands,
        )
  ]

  remove-Distinct : (k : Text) (es : Assoc Text A) → Distinct es → Distinct (remove k es)
  unfolding remove
  remove-Distinct k [] d = tt
  remove-Distinct k ((j, v) ∷ es) (new, d) =
      if_cases Distinct (j == k) (λ _. remove-Distinct k es d)
        (λ _. (ground (arith, lookup-remove k j es), remove-Distinct k es d))

  pub insert-Distinct :
      (k : Text) (v : A) (es : Assoc Text A) → Distinct es → Distinct (insert k v es)
  unfolding insert
  insert-Distinct k v es d =
      (ground (arith, lookup-remove k k es, text_beq_iff k k), remove-Distinct k es d)
