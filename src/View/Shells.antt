-- ===== src/View/Shells.antt =====
-- The envelope of an introspection answer (src/plexus/view.rs `Shell`): all that its items carry but
-- the content and the clock. A content type is a text.
use plexus_core.Base.{
  ℕ, Text, Option, none, some, List, [], ◌∷◌, if◌then◌else◌, ◌==◌, text_eq, length, ltb, ◌≡◌, refl,
  arith, inl, inr, Bool-cases, eq_of_beq, sym,
}
use plexus_core.Base.Assoc.{Assoc, insert}

pub record StreamMetadata : Type 0 where
  pub provenance : List Text
  pub plexus_hash : Text
  pub timestamp : ℕ

-- PlexusStreamItem: of the kinds that end a shell nothing is read.
pub data PlexusStreamItem (C : Type 0) : Type 0 where
  item_data : StreamMetadata → (content_type : Text) → C → PlexusStreamItem C
  item_done : StreamMetadata → PlexusStreamItem C
  item_other : PlexusStreamItem C

pub data HashOf : Type 0 where
  context : HashOf
  carried : Text → HashOf

pub data ShellItem : Type 0 where
  shell_data : (provenance : List Text) → HashOf → (content_type : Text) → ShellItem
  shell_done : (provenance : List Text) → HashOf → ShellItem

-- HashOf::of and HashOf::now
unfoldable pub hash_of : Text → (context : Text) → HashOf
hash_of h at = if h == at then context else carried h

unfoldable pub hash_now : HashOf → (context : Text) → Text
hash_now context at = at
hash_now (carried h) at = h

abbrev pub cons_some {ℓ} : {A : Type ℓ} → Option A → Option (List A) → Option (List A)
cons_some none o = none
cons_some (some a) none = none
cons_some (some a) (some rest) = some (a ∷ rest)

abbrev pub meta : (context : Text) → (timestamp : ℕ) → List Text → HashOf → StreamMetadata
meta at time provenance h = record {
  provenance = provenance;
  plexus_hash = hash_now h at;
  timestamp = time;
}

module _ {C : Type 0} where
  abbrev pub item_of : (context : Text) → PlexusStreamItem C → Option ShellItem
  item_of at (item_data m t c) = some (shell_data m.provenance (hash_of m.plexus_hash at) t)
  item_of at (item_done m) = some (shell_done m.provenance (hash_of m.plexus_hash at))
  item_of at item_other = none

  -- Shell::of
  unfoldable pub shell_of : (context : Text) → List (PlexusStreamItem C) → Option (List ShellItem)
  unfolding hash_of
  shell_of at [] = some []
  shell_of at (i ∷ is) = cons_some (item_of at i) (shell_of at is)

  -- Shell::answer: the content is moved into the last `data` item and cloned for any before it.
  unfoldable pub answer :
      (context : Text) → (timestamp : ℕ) → C → List ShellItem → List (PlexusStreamItem C)
  unfolding hash_now
  answer at time content [] = []
  answer at time content (shell_data provenance h t ∷ is) =
      item_data (meta at time provenance h) t content ∷ answer at time content is
  answer at time content (shell_done provenance h ∷ is) =
      item_done (meta at time provenance h) ∷ answer at time content is

  -- `with(content)` of the routed items: what an answer that was routed carries.
  unfoldable pub with_content : C → List (PlexusStreamItem C) → List (PlexusStreamItem C)
  with_content content [] = []
  with_content content (item_data m t _ ∷ is) = item_data m t content ∷ with_content content is
  with_content content (item_done m ∷ is) = item_done m ∷ with_content content is
  with_content content (item_other ∷ is) = item_other ∷ with_content content is

-- Described::keep_shell
unfoldable pub keep_shell :
    (key : Text) → List ShellItem → Assoc Text (List ShellItem) → Assoc Text (List ShellItem)
unfolding insert
keep_shell key shell shells = if ltb (length shells) 256 then insert key shell shells else shells

hash_now-hash_of : (h at : Text) → hash_now (hash_of h at) at ≡ h
unfolding hash_now hash_of
hash_now-hash_of h at = elim (Bool-cases (h == at)) [
  | inl same ↦ rw same (sym (eq_of_beq h at same))
  | inr other ↦ rw other refl
]

cons_some-eq-some :
    {A : Type 0} (o : Option A) (rest : Option (List A)) {as' : List A}
    → cons_some o rest ≡ some as'
    → (a : A) × (tail : List A) × (o ≡ some a) × (rest ≡ some tail) × (a ∷ tail ≡ as')
cons_some-eq-some none rest h = cc
cons_some-eq-some (some a) none h = cc
cons_some-eq-some (some a) (some tail) h = (a, tail, refl, refl, ground arith)

module _ {C : Type 0} where
  -- The same items, of another moment.
  unfoldable pub stamped : (timestamp : ℕ) → List (PlexusStreamItem C) → List (PlexusStreamItem C)
  stamped time [] = []
  stamped time (item_data m t c ∷ is) =
      item_data (record m { timestamp = time }) t c ∷ stamped time is
  stamped time (item_done m ∷ is) = item_done (record m { timestamp = time }) ∷ stamped time is
  stamped time (item_other ∷ is) = item_other ∷ stamped time is

  -- While the process's hash is the same: what is answered from the envelope of a routed answer is
  -- that answer, with the view's content in each of its items, stamped now.
  pub answer-shell_of :
      (at : Text) (time : ℕ) (content : C) (items : List (PlexusStreamItem C))
      (shell : List ShellItem)
      → shell_of at items ≡ some shell
      → answer at time content shell ≡ stamped time (with_content content items)
  unfolding shell_of answer with_content stamped
  answer-shell_of at time content [] shell h = let e : [] ≡ shell = ground arith in rw (← e) refl
  answer-shell_of at time content (item_other ∷ is) shell h = cc
  answer-shell_of at time content (item_done m ∷ is) shell h =
      let (a, tail, first, rest, e) =
        cons_some-eq-some (item_of {C = C} at (item_done m)) (shell_of at is) h in
      let made : shell_done m.provenance (hash_of m.plexus_hash at) ≡ a = ground arith in
      rw
        (
          ← e,
          ← made,
          hash_now-hash_of m.plexus_hash at,
          answer-shell_of at time content is tail rest,
        )
        refl
  answer-shell_of at time content (item_data m t c ∷ is) shell h =
      let (a, tail, first, rest, e) =
        cons_some-eq-some (item_of {C = C} at (item_data m t c)) (shell_of at is) h in
      let made : shell_data m.provenance (hash_of m.plexus_hash at) t ≡ a = ground arith in
      rw
        (
          ← e,
          ← made,
          hash_now-hash_of m.plexus_hash at,
          answer-shell_of at time content is tail rest,
        )
        refl
