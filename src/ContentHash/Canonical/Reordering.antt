-- ===== src/ContentHash/Canonical/Reordering.antt =====
-- The canonical JSON of an object does not depend on the order of its keys.
use plexus_core.Base.{
  Text, true, false, List, [], ◌∷◌, ◌++◌, ◌≡◌, ◌≢◌, refl, sym, ap, ◌∙◌, arith, if_true, if_false,
  nat_eq, Bool-cases, inl, inr,
}
use plexus_core.Json.{Value, object, Members, member}
use plexus_core.ContentHash.Canonical.{
  le_text, insert_entry, sort_entries, entries_text, write_canonical, write_members,
}

le_text_total : (s t : Text) → le_text s t ≡ false → le_text t s ≡ true
unfolding le_text
le_text_total [] t h = cc
le_text_total (a ∷ s) [] h = refl
le_text_total (a ∷ s) (b ∷ t) h = ground (arith, le_text_total s t)

le_text_trans : (s t u : Text) → le_text s t ≡ true → le_text t u ≡ true → le_text s u ≡ true
unfolding le_text
le_text_trans [] t u h k = refl
le_text_trans (a ∷ s) [] u h k = cc
le_text_trans (a ∷ s) (b ∷ t) [] h k = cc
le_text_trans (a ∷ s) (b ∷ t) (c ∷ u) h k = ground (arith, le_text_trans s t u)

le_text_antisym : (s t : Text) → le_text s t ≡ true → le_text t s ≡ true → s ≡ t
unfolding le_text
le_text_antisym [] [] h k = refl
le_text_antisym [] (b ∷ t) h k = cc
le_text_antisym (a ∷ s) [] h k = cc
le_text_antisym (a ∷ s) (b ∷ t) h k = ground (arith, le_text_antisym s t)

insert_entry-before :
    (e f : Text × Text) (fs : List (Text × Text))
    → le_text e.0 f.0 ≡ true
    → insert_entry e (f ∷ fs) ≡ e ∷ f ∷ fs
unfolding insert_entry
insert_entry-before e f fs h = if_true (le_text e.0 f.0) (e ∷ f ∷ fs) (f ∷ insert_entry e fs) h

insert_entry-after :
    (e f : Text × Text) (fs : List (Text × Text))
    → le_text e.0 f.0 ≡ false
    → insert_entry e (f ∷ fs) ≡ f ∷ insert_entry e fs
unfolding insert_entry
insert_entry-after e f fs h = if_false (le_text e.0 f.0) (e ∷ f ∷ fs) (f ∷ insert_entry e fs) h

-- Where one key stands before another, the other stands after it.
after_before : (s t : Text) → s ≢ t → le_text s t ≡ true → le_text t s ≡ false
after_before s t ne h = elim (Bool-cases (le_text t s)) [
  | inl back ↦ absurd (ne (le_text_antisym s t h back))
  | inr there ↦ there
]

-- Two entries of different keys, the first one's key the lesser.
insert_entry-ordered :
    (d e : Text × Text) (fs : List (Text × Text))
    → le_text d.0 e.0 ≡ true
    → le_text e.0 d.0 ≡ false
    → insert_entry d (insert_entry e fs) ≡ insert_entry e (insert_entry d fs)
unfolding insert_entry
insert_entry-ordered d e [] h k = insert_entry-before d e [] h ∙ sym (insert_entry-after e d [] k)
insert_entry-ordered d e (f ∷ fs) h k = elim (Bool-cases (le_text e.0 f.0)) [
  | inl first ↦
      let less = le_text_trans d.0 e.0 f.0 h first in
      ap (insert_entry d) (insert_entry-before e f fs first)
      ∙ (insert_entry-before d e (f ∷ fs) h
          ∙ sym (
              ap (insert_entry e) (insert_entry-before d f fs less)
              ∙ (insert_entry-after e d (f ∷ fs) k
                  ∙ ap (λ (l : List (Text × Text)). d ∷ l) (insert_entry-before e f fs first))))
  | inr later ↦ elim (Bool-cases (le_text d.0 f.0)) [
    | inl before ↦
        ap (insert_entry d) (insert_entry-after e f fs later)
        ∙ (insert_entry-before d f (insert_entry e fs) before
            ∙ sym (
                ap (insert_entry e) (insert_entry-before d f fs before)
                ∙ (insert_entry-after e d (f ∷ fs) k
                    ∙ ap (λ (l : List (Text × Text)). d ∷ l) (insert_entry-after e f fs later))))
    | inr beyond ↦
        ap (insert_entry d) (insert_entry-after e f fs later)
        ∙ (insert_entry-after d f (insert_entry e fs) beyond
            ∙ (ap (λ (l : List (Text × Text)). f ∷ l) (insert_entry-ordered d e fs h k)
                ∙ sym (
                    ap (insert_entry e) (insert_entry-after d f fs beyond)
                    ∙ insert_entry-after e f (insert_entry d fs) later)))
  ]
]

insert_entry-swap :
    (d e : Text × Text) (fs : List (Text × Text))
    → d.0 ≢ e.0
    → insert_entry d (insert_entry e fs) ≡ insert_entry e (insert_entry d fs)
insert_entry-swap d e fs ne = elim (Bool-cases (le_text d.0 e.0)) [
  | inl h ↦ insert_entry-ordered d e fs h (after_before d.0 e.0 ne h)
  | inr h ↦ sym (insert_entry-ordered e d fs (le_text_total d.0 e.0 h) h)
]

-- The same members but for their order, and for values of which the same is written.
pub data Reordered (show_text : Text → Text) : Members → Members → Type 0 where
  stays : {ms : Members} → Reordered show_text ms ms
  swaps :
      {j k : Text} {u v : Value} {ms : Members}
      → j ≢ k
      → Reordered show_text (member j u (member k v ms)) (member k v (member j u ms))
  under :
      {k : Text} {v : Value} {ms ns : Members}
      → Reordered show_text ms ns
      → Reordered show_text (member k v ms) (member k v ns)
  changes :
      {k : Text} {v w : Value} {ms : Members}
      → write_canonical show_text v ≡ write_canonical show_text w
      → Reordered show_text (member k v ms) (member k w ms)
  chain :
      {ls ms ns : Members}
      → Reordered show_text ls ms
      → Reordered show_text ms ns
      → Reordered show_text ls ns

module _ (show_text : Text → Text) where
  sort_entries-Reordered :
      (ms ns : Members)
      → Reordered show_text ms ns
      → sort_entries (write_members show_text ms) ≡ sort_entries (write_members show_text ns)
  unfolding sort_entries write_canonical
  sort_entries-Reordered a b stays = refl
  sort_entries-Reordered a b (swaps {j} {k} {u} {v} {ms} ne) =
      insert_entry-swap (j, write_canonical show_text u) (k, write_canonical show_text v)
        (sort_entries (write_members show_text ms)) ne
  sort_entries-Reordered a b (under {k} {v} {ms} {ns} r) =
      ap (insert_entry (k, write_canonical show_text v)) (sort_entries-Reordered ms ns r)
  sort_entries-Reordered a b (changes {k} {v} {w} {ms} e) =
      ap (λ t. insert_entry (k, t) (sort_entries (write_members show_text ms))) e
  sort_entries-Reordered a b (chain {ls} {ms} {ns} r r') =
      sort_entries-Reordered ls ms r ∙ sort_entries-Reordered ms ns r'

  -- Two objects of the same members in any orders (no key twice, and their values written alike,
  -- whatever the order of the keys in those) have the same canonical JSON.
  pub write_canonical-Reordered :
      (ms ns : Members)
      → Reordered show_text ms ns
      → write_canonical show_text (object ms) ≡ write_canonical show_text (object ns)
  unfolding write_canonical
  write_canonical-Reordered ms ns r =
      ap (λ es. (b'{' ∷ entries_text show_text es) ++ (b'}' ∷ [])) (sort_entries-Reordered ms ns r)
