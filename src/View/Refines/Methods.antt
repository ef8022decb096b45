-- ===== src/View/Refines/Methods.antt =====
-- The methods of one activation: the indices that the loop keeps give what is shown.
use plexus_core.Base.{
  ℕ, suc, Text, Bool, true, false, Option, none, some, List, [], ◌∷◌, ◌++◌, if◌then◌else◌, text_eq,
  length, ◌≡◌, refl, sym, ap, ◌∙◌, append_assoc, append-nil,
}
use plexus_core.View.Schema.{MethodSchema, is_auto_schema}
use plexus_core.View.Described.{Below, Asker}
use plexus_core.View.Shape.{Panics, each, get_elem?, shown, name_at}
use plexus_core.View.Decide.{Held, to_list, pick, decide_method, scan}
use plexus_core.View.Agreement.{shown-name}
use plexus_core.View.Meaning.{keeping, methods_shown, entry_shown, names_of}

-- Each of the first list gives the one of the second that stands at its place.
abbrev pub Gives : {A B : Type 0} → (A → Panics B) → List A → List B → Type 0
Gives f [] [] = Unit
Gives f [] (y ∷ ys) = ⊥
Gives f (x ∷ xs) [] = ⊥
Gives f (x ∷ xs) (y ∷ ys) = (f x ≡ some y) × Gives f xs ys

pub each-Gives :
    {A B : Type 0} (f : A → Panics B) (xs : List A) (ys : List B)
    → Gives f xs ys
    → each f xs ≡ some ys
unfolding each
each-Gives f [] [] h = refl
each-Gives f [] (y ∷ ys) h = absurd h
each-Gives f (x ∷ xs) [] h = absurd h
each-Gives f (x ∷ xs) (y ∷ ys) (h, hs) = rw (h, each-Gives f xs ys hs) refl

pub Gives-append :
    {A B : Type 0} (f : A → Panics B) (xs xs' : List A) (ys ys' : List B)
    → Gives f xs ys
    → Gives f xs' ys'
    → Gives f (xs ++ xs') (ys ++ ys')
Gives-append f [] xs' [] ys' h k = k
Gives-append f [] xs' (y ∷ ys) ys' h k = absurd h
Gives-append f (x ∷ xs) xs' [] ys' h k = absurd h
Gives-append f (x ∷ xs) xs' (y ∷ ys) ys' (h, hs) k = (h, Gives-append f xs xs' ys ys' hs k)

pub get_elem?-length {ℓ} :
    {A : Type ℓ} (pre : List A) (x : A) (post : List A)
    → get_elem? (pre ++ (x ∷ post)) (length pre) ≡ some x
get_elem?-length [] x post = refl
get_elem?-length (y ∷ pre) x post = get_elem?-length pre x post

pub length-snoc {ℓ} :
    {A : Type ℓ} (pre : List A) (x : A) → length (pre ++ (x ∷ [])) ≡ suc (length pre)
length-snoc [] x = refl
length-snoc (y ∷ pre) x = ap suc (length-snoc pre x)

module _ {R : Type 0} where
  pub Gives-names :
      (source : List (MethodSchema R)) (ps : List (ℕ × Held)) (ms : List (MethodSchema R))
      → Gives (shown source) ps ms
      → Gives (name_at source) ps (names_of ms)
  Gives-names source [] [] h = tt
  Gives-names source [] (m ∷ ms) h = absurd h
  Gives-names source (p ∷ ps) [] h = absurd h
  Gives-names source (p ∷ ps) (m ∷ ms) (h, hs) =
      (shown-name source p h, Gives-names source ps ms hs)

  shown-length :
      (pre : List (MethodSchema R)) (m : MethodSchema R) (post : List (MethodSchema R))
      (held : Held)
      → shown (pre ++ (m ∷ post)) (length pre, held) ≡ some (record m { held_on = held })
  unfolding shown
  shown-length pre m post held = rw (get_elem?-length pre m post) refl

  Gives-pick :
      (pre : List (MethodSchema R)) (m : MethodSchema R) (post : List (MethodSchema R))
      (o : Option Held)
      → Gives (shown (pre ++ (m ∷ post))) (pick (length pre) o) (keeping m o)
  Gives-pick pre m post none = tt
  Gives-pick pre m post (some held) = (shown-length pre m post held, tt)

  -- One turn of the loop.
  Gives-kept :
      (b : Bool) (pre : List (MethodSchema R)) (m : MethodSchema R) (post : List (MethodSchema R))
      (o : Option Held) (kept : List (ℕ × Held)) (out : List (MethodSchema R))
      → Gives (shown (pre ++ (m ∷ post))) kept out
      → Gives
          (shown (pre ++ (m ∷ post)))
          (if b then kept else kept ++ pick (length pre) o)
          (out ++ (if b then [] else keeping m o))
  Gives-kept true pre m post o kept out h = rw append-nil h
  Gives-kept false pre m post o kept out h =
      Gives-append (shown (pre ++ (m ∷ post))) kept (pick (length pre) o) out (keeping m o) h
        (Gives-pick pre m post o)

  Gives-entry :
      (b : Bool) (pre : List (MethodSchema R)) (m : MethodSchema R) (post : List (MethodSchema R))
      (entry : Option (ℕ × Held)) (eout : List (MethodSchema R))
      → Gives (shown (pre ++ (m ∷ post))) (to_list entry) eout
      → Gives
          (shown (pre ++ (m ∷ post)))
          (to_list (if b then some (length pre, m.held_on) else entry))
          (if b then m ∷ [] else eout)
  Gives-entry true pre m post entry eout h = (shown-length pre m post m.held_on, tt)
  Gives-entry false pre m post entry eout h = h

module _ {F R : Type 0} (asker : Asker F) (below : List Below) (ns : Text) where
  -- What the loop has kept is what is shown of the methods it has passed.
  pub scan-Gives :
      (pre ms source : List (MethodSchema R)) (kept : List (ℕ × Held)) (entry : Option (ℕ × Held))
      (out eout : List (MethodSchema R))
      → source ≡ pre ++ ms
      → Gives (shown source) kept out
      → Gives (shown source) (to_list entry) eout
      → let r = scan asker below ns (length pre) ms kept entry in
        Gives (shown source) r.0 (out ++ methods_shown asker below ns ms)
        × Gives (shown source) (to_list r.1) (entry_shown ms eout)
  unfolding scan methods_shown entry_shown
  scan-Gives pre [] source kept entry out eout at h k = (rw append-nil h, k)
  scan-Gives pre (m ∷ ms) source kept entry out eout at h k =
      let auto = is_auto_schema m in
      let o = decide_method asker below ns m in
      let h' = Gives-kept auto pre m ms o kept out (rw at at h) in
      let k' = Gives-entry auto pre m ms entry eout (rw at at k) in
      let next =
        scan-Gives (pre ++ (m ∷ [])) ms source (if auto then kept else kept ++ pick (length pre) o)
          (if auto then some (length pre, m.held_on) else entry)
          (out ++ (if auto then [] else keeping m o)) (if auto then m ∷ [] else eout)
          (at ∙ sym (append_assoc pre (m ∷ []) ms)) (rw at h') (rw at k') in
      rw (length-snoc pre m, append_assoc) at next
