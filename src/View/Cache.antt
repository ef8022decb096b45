-- ===== src/View/Cache.antt =====
-- The cache of what a service describes and of the views of it (src/plexus/view.rs `Cache`, and
-- `described` and `shaped` of src/plexus/plexus.rs). A cell is filled in the step that takes it: what
-- each asker built, and the generations that it had read before, are the event's. A view's key is a
-- caller's fingerprint, if there is one.
pub mod Fresh
pub mod Runs
use plexus_core.Base.{
  ℕ, zero, suc, ◌+◌, ◌≤◌, ◌<◌, Text, Bool, true, false, ◌||◌, Option, none, some, List, [], ◌∷◌,
  ◌++◌, if◌then◌else◌, ◌==◌, Eq, ltb, leb, length, ◌≡◌, refl, arith, inl, inr, ◌⊎◌, Bool-cases,
  Option-cases, All, if_cases, eq_of_beq, ap, sym, ◌∙◌, nat_eq,
}
use plexus_core.Base.Word.{add64}
use plexus_core.Base.Assoc.{Assoc, lookup, insert, remove, lookup-insert}

abbrev pub max_views : ℕ
max_views = 1024

pub record State (K B V : Type 0) : Type 0 where
  pub schema_at : ℕ
  pub grants_at : ℕ
  pub base : Option B
  pub views : Assoc K V

pub record Cache (K B V : Type 0) : Type 0 where
  pub schema_generation : ℕ
  pub state : State K B V

pub data Event (K B V : Type 0) : Type 0 where
  moves resets : Event K B V
  describes : (schema_at : ℕ) → (now : B) → Event K B V
  shapes : (schema_at grants_at : ℕ) (who : K) → (now : B) → (decide : B → V) → Event K B V

-- Who asked for a view, at which generations, and what it was given.
pub record Answer (K B V : Type 0) : Type 0 where
  pub schema_at : ℕ
  pub grants_at : ℕ
  pub who : K
  pub base : B
  pub view : V

abbrev pub or_now {ℓ} : {A : Type ℓ} → Option A → A → A
or_now none now = now
or_now (some a) now = a

module _ {K B V : Type 0} where
  abbrev pub blank : (schema_at grants_at : ℕ) → State K B V
  blank s g = record { schema_at = s; grants_at = g; base = none; views = [] }

  unfoldable pub empty : Cache K B V
  empty = record { schema_generation = 0; state = blank 0 0 }

  unfoldable pub schema_moved : Cache K B V → Cache K B V
  unfolding add64
  schema_moved c = record c { schema_generation = add64 c.schema_generation 1 }

  unfoldable pub reset : Cache K B V → Cache K B V
  unfolding add64
  reset c =
      let next = add64 c.schema_generation 1 in
      record { schema_generation = next; state = blank next 0 }

  -- Cache::base: the state whose cell is taken; `none` for a stale reader.
  unfoldable pub base_at : ℕ → State K B V → Option (State K B V)
  base_at schema_at st =
      if ltb schema_at st.schema_at
      then none
      else if ltb st.schema_at schema_at
      then some (blank schema_at st.grants_at)
      else some st

  abbrev pub fill_base : B → State K B V → State K B V
  fill_base now st = record st { base = some (or_now st.base now) }

  abbrev pub describe_in : B → Option (State K B V) → Cache K B V → Cache K B V × B
  describe_in now none c = (c, now)
  describe_in now (some st) c = (record c { state = fill_base now st }, or_now st.base now)

  -- described
  unfoldable pub described : ℕ → B → Cache K B V → Cache K B V × B
  unfolding base_at
  described schema_at now c = describe_in now (base_at schema_at c.state) c

  -- Cache::view up to the view's own cell.
  unfoldable pub views_at : (schema_at grants_at : ℕ) → State K B V → Option (State K B V)
  views_at schema_at grants_at st =
      if ltb schema_at st.schema_at || ltb grants_at st.grants_at
      then none
      else if ltb st.schema_at schema_at
      then some (blank schema_at grants_at)
      else if ltb st.grants_at grants_at
      then some (record st { grants_at = grants_at; views = [] })
      else some st

module _ {K B V : Type 0} ⦃e : Eq K⦄ where
  abbrev pub with_room : State K B V → Assoc K V
  with_room st = if leb max_views (length st.views) then [] else st.views

  -- The view's cell: the one that is there, or a new one, filled.
  abbrev pub view_in : K → (B → V) → B → Option V → State K B V → State K B V × V
  view_in who decide base (some v) st = (st, v)
  view_in who decide base none st =
      (record st { views = insert who (decide base) (with_room st) }, decide base)

  abbrev pub answer_in : K → B → (B → V) → Option (State K B V) → Cache K B V → Cache K B V × B × V
  answer_in who now decide none c = (c, now, decide now)
  answer_in who now decide (some st) c =
      let filled = fill_base now st in
      let base = or_now st.base now in
      let (st', v) = view_in who decide base (lookup who st.views) filled in
      (record c { state = st' }, base, v)

  -- shaped
  unfoldable pub shaped :
      (schema_at grants_at : ℕ)
      → K
      → (now : B) → (decide : B → V) → Cache K B V
      → Cache K B V × B × V
  unfolding views_at lookup insert
  shaped schema_at grants_at who now decide c =
      answer_in who now decide (views_at schema_at grants_at c.state) c

  unfoldable pub run : List (Event K B V) → Cache K B V → List (Answer K B V)
  unfolding shaped described schema_moved reset
  run [] c = []
  run (moves ∷ es) c = run es (schema_moved c)
  run (resets ∷ es) c = run es (reset c)
  run (describes s now ∷ es) c = run es (described s now c).0
  run (shapes s g who now decide ∷ es) c =
      let (c', base, view) = shaped s g who now decide c in
      record { schema_at = s; grants_at = g; who = who; base = base; view = view } ∷ run es c'
