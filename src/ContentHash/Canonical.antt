-- ===== src/ContentHash/Canonical.antt =====
-- `canonical_json` (src/plexus/content_hash.rs): the text that a schema's hash is taken of. How
-- serde_json writes a text is a parameter; a number is its text.
pub mod Reordering
use plexus_core.Base.{
  ℕ, Text, codes, Bool, true, false, List, [], ◌∷◌, ◌++◌, if◌then◌else◌, ltb, ◌==◌, nat_eq,
}
use plexus_core.Json.{
  Value, null, bool, number, string, array, object, Items, nil, cons, Members, end, member,
}

-- `str::cmp`, less or equal: by code points.
unfoldable pub le_text : Text → Text → Bool
le_text [] t = true
le_text (a ∷ s) [] = false
le_text (a ∷ s) (b ∷ t) = if ltb a b then true else if a == b then le_text s t else false

-- A stable sort by key, of the entries with what is written for each.
unfoldable pub insert_entry : Text × Text → List (Text × Text) → List (Text × Text)
unfolding le_text
insert_entry e [] = e ∷ []
insert_entry e (f ∷ fs) = if le_text e.0 f.0 then e ∷ f ∷ fs else f ∷ insert_entry e fs

unfoldable pub sort_entries : List (Text × Text) → List (Text × Text)
unfolding insert_entry
sort_entries [] = []
sort_entries (e ∷ es) = insert_entry e (sort_entries es)

module _ (show_text : Text → Text) where
  -- Each entry after a comma.
  unfoldable pub entries_after : List (Text × Text) → Text
  entries_after [] = []
  entries_after ((k, t) ∷ es) = (b',' ∷ show_text k) ++ ((b':' ∷ t) ++ entries_after es)

  unfoldable pub entries_text : List (Text × Text) → Text
  unfolding entries_after
  entries_text [] = []
  entries_text ((k, t) ∷ es) = show_text k ++ ((b':' ∷ t) ++ entries_after es)

  unfoldable mutual
    unfolding sort_entries entries_text

    pub write_canonical : Value → Text
    write_canonical null = codes "null"
    write_canonical (bool b) = if b then codes "true" else codes "false"
    write_canonical (number t) = t
    write_canonical (string s) = show_text s
    write_canonical (array vs) = (b'[' ∷ write_items vs) ++ (b']' ∷ [])
    write_canonical (object ms) =
        (b'{' ∷ entries_text (sort_entries (write_members ms))) ++ (b'}' ∷ [])

    pub write_items : Items → Text
    write_items nil = []
    write_items (cons v vs) = write_canonical v ++ write_items_after vs

    pub write_items_after : Items → Text
    write_items_after nil = []
    write_items_after (cons v vs) = (b',' ∷ write_canonical v) ++ write_items_after vs

    pub write_members : Members → List (Text × Text)
    write_members end = []
    write_members (member k v ms) = (k, write_canonical v) ∷ write_members ms
