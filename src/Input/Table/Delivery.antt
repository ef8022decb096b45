-- ===== src/Input/Table/Delivery.antt =====
-- What becomes of a frame: when it is taken, in what order frames reach the call, how much a slot
-- holds, and that a frame touches its own call alone.
use plexus_core.Base.{
  ℕ, suc, ◌+◌, ◌≤◌, ◌<◌, Text, Bool, true, false, not, Option, none, some, List, [], ◌∷◌, ◌++◌, ◌≡◌,
  refl, ◌↔◌, ◌⊎◌, arith, length, length-append, any, if◌then◌else◌, ltb, Option-cases, if_cases,
  inl, inr, ◌==◌, nat_eq, beq_self,
}
use plexus_core.Base.Word.{u64_mod, add64, add64_exact}
use plexus_core.Base.Assoc.{lookup, insert, lookup-insert, lookup-remove}
use plexus_core.Call.{InputFrame, Overrun}
use plexus_core.Input.Table.{
  Items, Batch, Delivered, taken, dropped, Slot, InputTable, numbered, overrun_frame, shut, hold,
  arrive_slot, gone, named_slot, at_slot, at_slot, arrive, detach, closed_kept, remember, pop_front,
}

module _ {J : Type 0} (conn seq count bytes : ℕ) (raw : Bool) (items : Items J) (s : Slot J) where
  -- A frame is taken exactly when the half is open, the frame is the next in sequence, it has an
  -- item at least, and the slot holds no more than its window with it.
  pub arrive_slot-taken_iff : ((arrive_slot conn seq count bytes raw items s).1 ≡ taken) ↔ (
      (s.open_ ≡ true)
      × (seq ≡ s.next_seq)
      × (0 < count)
      × (add64 s.ledger.held_items count ≤ s.ledger.window))
  unfolding arrive_slot
  arrive_slot-taken_iff = ground arith

  -- A frame that was seen before, or that comes after the half closed, changes nothing.
  pub arrive_slot-dropped :
      (arrive_slot conn seq count bytes raw items s).1 ≡ dropped
      → ((arrive_slot conn seq count bytes raw items s).0 ≡ s)
        × ((s.open_ ≡ false) ⊎ (seq < s.next_seq))
  unfolding arrive_slot
  arrive_slot-dropped h = ground arith

-- One claim for a frame with no overrun, another for one that tells of an overrun.
abbrev pub HeadIs : Option Overrun → Type 0 → Type 0 → Type 0
HeadIs none P Q = P
HeadIs (some _) P Q = Q

HeadIs-map :
    {P P' Q Q' : Type 0} (o : Option Overrun) → (P → P') → (Q → Q') → HeadIs o P Q → HeadIs o P' Q'
HeadIs-map none f g h = f h
HeadIs-map (some _) f g h = g h

-- The frames of a queue carry the sequence numbers from `first` up to `next`; a frame that tells of
-- an overrun is the last.
abbrev pub InOrder : {J : Type 0} → ℕ → List (InputFrame (Batch J)) → ℕ → Bool → Type 0
InOrder first [] next open_ = first ≡ next
InOrder first (f ∷ fs) next open_ =
    HeadIs f.overrun ((f.seq ≡ first) × InOrder (suc first) fs next open_)
      ((open_ ≡ false) × (fs ≡ []) × (first ≤ next))

module _ {J : Type 0} where
  InOrder-append :
      (first next : ℕ) (fs : List (InputFrame (Batch J))) (f : InputFrame (Batch J))
      → InOrder first fs next true
      → f.overrun ≡ none
      → f.seq ≡ next
      → InOrder first (fs ++ f ∷ []) (suc next) true
  InOrder-append first next [] f h o e = ground arith
  InOrder-append first next (x ∷ fs) f h o e =
      HeadIs-map x.overrun (λ (k, ks). (k, InOrder-append (suc first) next fs f ks o e))
        (λ (shut, _, _). cc) h

  InOrder-append_overrun :
      (first next next' : ℕ) (fs : List (InputFrame (Batch J))) (f : InputFrame (Batch J))
      (o : Overrun)
      → InOrder first fs next true
      → f.overrun ≡ some o
      → next ≤ next'
      → InOrder first (fs ++ f ∷ []) next' false
  InOrder-append_overrun first next next' [] f o h e le = ground arith
  InOrder-append_overrun first next next' (x ∷ fs) f o h e le =
      HeadIs-map x.overrun
        (λ (k, ks). (k, InOrder-append_overrun (suc first) next next' fs f o ks e le))
        (λ (shut, _, _). cc) h

module _ {J : Type 0} (first : ℕ) where
  -- The frames of the slot that an operation left are in order.
  abbrev pub SlotInOrder : Slot J × Delivered → Type 0
  SlotInOrder m = InOrder first m.0.queue m.0.next_seq m.0.open_

  shut-InOrder :
      (conn seq next : ℕ) (o : Overrun) (s : Slot J)
      → InOrder first s.queue next true
      → next ≤ s.next_seq
      → SlotInOrder (shut conn seq o s)
  unfolding shut
  shut-InOrder conn seq next o s h le =
      InOrder-append_overrun first next s.next_seq s.queue (overrun_frame conn seq o) o h refl le

  hold-InOrder :
      (conn seq count bytes : ℕ) (raw : Bool) (items : Items J) (s : Slot J)
      → InOrder first s.queue seq true
      → s.next_seq ≡ suc seq
      → s.open_ ≡ true
      → SlotInOrder (hold conn seq count bytes raw items s)
  unfolding hold
  hold-InOrder conn seq count bytes raw items s h e o =
      rw (e, o) (InOrder-append first seq s.queue _ h refl refl)

  -- However frames arrive, what a slot's call reads are the frames in their order, each once, from
  -- the first on, then at most one that tells of an overrun, after which the half is closed: an
  -- arrival keeps it so, while the slot's next number and one stay below 2^64.
  pub arrive_slot-InOrder :
      (conn seq count bytes : ℕ) (raw : Bool) (items : Items J) (s : Slot J)
      → s.next_seq + 1 < u64_mod
      → InOrder first s.queue s.next_seq s.open_
      → SlotInOrder (arrive_slot conn seq count bytes raw items s)
  unfolding arrive_slot
  arrive_slot-InOrder conn seq count bytes raw items s r h =
      if_cases SlotInOrder (not s.open_) (λ _. h)
        λ is_open.
          let o : s.open_ ≡ true = ground arith in
          let h' = rw o at h in
          if_cases SlotInOrder (ltb seq s.next_seq) (λ _. h)
            λ not_old.
              if_cases SlotInOrder (ltb s.next_seq seq)
                (λ _. shut-InOrder conn seq s.next_seq _ s h' (omega arith))
                λ not_ahead.
                  let same : seq ≡ s.next_seq = ground arith in
                  let next = add64_exact s.next_seq 1 r in
                  if_cases SlotInOrder (count == 0)
                    (λ _. shut-InOrder conn seq s.next_seq _ (numbered s) h' (omega arith))
                    λ _.
                      if_cases SlotInOrder (ltb s.ledger.window (add64 s.ledger.held_items count))
                        (λ _. shut-InOrder conn seq s.next_seq _ (numbered s) h' (omega arith))
                        λ _.
                          hold-InOrder conn seq count bytes raw items (numbered s) (rw same h')
                            (ground arith) o

any-last : (sub : ℕ) (xs : List ℕ) → any (λ x. x == sub) (xs ++ sub ∷ []) ≡ true
any-last sub [] = ground (arith, beq_self sub)
any-last sub (x ∷ xs) = ground (arith, any-last sub xs)

any-remember : (sub : ℕ) (xs : List ℕ) → any (λ x. x == sub) (remember sub xs) ≡ true
any-remember sub xs = any-last sub (if length xs == closed_kept then pop_front xs else xs)

length-remember :
    (sub : ℕ) (xs : List ℕ) → length xs ≤ closed_kept → length (remember sub xs) ≤ closed_kept
length-remember sub [] h = ground arith
length-remember sub (x ∷ xs) h =
    if_cases (λ (ys : List ℕ). length (ys ++ sub ∷ []) ≤ closed_kept)
      (length (x ∷ xs) == closed_kept) (λ full. ground (arith, length-append xs (sub ∷ [])))
      (λ room. ground (arith, length-append xs (sub ∷ [])))

module _ {J : Type 0} where
  -- A slot that holds no more items than its window never comes to hold more, whatever its client
  -- sends.
  pub arrive_slot-within :
      (conn seq count bytes : ℕ) (raw : Bool) (items : Items J) (s : Slot J)
      → s.ledger.held_items ≤ s.ledger.window
      → (arrive_slot conn seq count bytes raw items s).0.ledger.held_items
        ≤ (arrive_slot conn seq count bytes raw items s).0.ledger.window
  unfolding arrive_slot
  arrive_slot-within conn seq count bytes raw items s h = ground arith

  named_slot-none : (ns : Option Text) {o : Option (Slot J)} → o ≡ none → named_slot ns o ≡ none
  unfolding named_slot
  named_slot-none none e = rw e refl
  named_slot-none (some ns) e = rw e refl

  lookup-detach : (sub : ℕ) (t : InputTable J) → lookup sub (detach sub t).slots ≡ none
  unfolding detach
  lookup-detach sub t = rw (lookup-remove sub sub t.slots, beq_self sub) refl

  at_slot-none :
      (sub : ℕ) (ns : Option Text) (f : Slot J → Slot J × Delivered) (t : InputTable J)
      → named_slot ns (lookup sub t.slots) ≡ none
      → at_slot sub ns f t ≡ (t, gone sub t)
  at_slot-none sub ns f t e = rw (e, at_slot) refl

  at_slot-some :
      (sub : ℕ) (ns : Option Text) (f : Slot J → Slot J × Delivered) (t : InputTable J) (s : Slot J)
      → named_slot ns (lookup sub t.slots) ≡ some s
      → at_slot sub ns f t ≡ (record t { slots = insert sub (f s).0 t.slots }, (f s).1)
  at_slot-some sub ns f t s e = rw (e, at_slot) refl

  at_slot-lookup_ne :
      (sub j : ℕ) (ns : Option Text) (f : Slot J → Slot J × Delivered) (t : InputTable J)
      → (sub == j) ≡ false
      → lookup j (at_slot sub ns f t).0.slots ≡ lookup j t.slots
  at_slot-lookup_ne sub j ns f t ne = elim (Option-cases (named_slot ns (lookup sub t.slots))) [
    | inl e ↦ rw (at_slot-none sub ns f t e) refl
    | inr (s, e) ↦ rw (at_slot-some sub ns f t s e, lookup-insert sub j (f s).0 t.slots, ne) refl
  ]

  -- A frame touches the slot of its own call alone.
  pub arrive-lookup_ne :
      (sub j : ℕ) (ns : Option Text) (seq count bytes : ℕ) (raw : Bool) (items : Items J)
      (t : InputTable J)
      → (sub == j) ≡ false
      → lookup j (arrive sub ns seq count bytes raw items t).0.slots ≡ lookup j t.slots
  unfolding arrive
  arrive-lookup_ne sub j ns seq count bytes raw items t ne =
      at_slot-lookup_ne sub j ns (arrive_slot t.conn seq count bytes raw items) t ne

  -- After its call ended, a frame is dropped as a late one, and a table that remembered at most
  -- `closed_kept` ended calls still does.
  pub detach-arrive :
      (sub : ℕ) (ns : Option Text) (seq count bytes : ℕ) (raw : Bool) (items : Items J)
      (t : InputTable J)
      → length t.closed ≤ closed_kept
      → ((arrive sub ns seq count bytes raw items (detach sub t)).1 ≡ dropped)
        × (length (detach sub t).closed ≤ closed_kept)
  unfolding detach arrive gone
  detach-arrive sub ns seq count bytes raw items t h = (
    rw
        (at_slot-none sub ns (arrive_slot t.conn seq count bytes raw items) (detach sub t)
          (named_slot-none ns (lookup-detach sub t)))
        (rw (any-remember sub t.closed) refl),
    length-remember sub t.closed h,
  )
