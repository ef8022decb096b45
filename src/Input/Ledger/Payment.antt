-- ===== src/Input/Ledger/Payment.antt =====
-- What `Ledger::owed` pays.
use plexus_core.Base.{
  ℕ, ◌-◌, ◌≤◌, ◌<◌, true, false, not, ◌&&◌, ◌||◌, none, some, if◌then◌else◌, ltb, leb, ◌≡◌, refl,
  arith, ◌⊎◌, inl, inr, if_cases,
}
use plexus_core.Input.Ledger.{Ledger, Owed, owed, half, due}

-- What a payment is: the ledger notes it as returned, it acknowledges the last frame consumed
-- where that is news, and its credit is all that is due, half a window at least, but nothing once
-- the input ended.
pub record Pays (acked : ℕ) (l l' : Ledger) (o : Owed) : Type 0 where
  pub noted : l' ≡ record l { returned = l.consumed }
  pub done : o.done ≡ l.done
  pub ack : o.ack ≡ (if ltb acked l.done then some (l.done - 1) else none)
  pub credit :
      ((l.finished || l.ended) ≡ true × (o.credit ≡ 0))
      ⊎ ((l.finished || l.ended) ≡ false × (o.credit ≡ due l) × (half l ≤ o.credit))

module _ (acked : ℕ) (l : Ledger) where
  abbrev payment : Owed
  payment = record {
    ack = if ltb acked l.done then some (l.done - 1) else none;
    done = l.done;
    credit = if l.finished || l.ended then 0 else due l;
  }

  payment-Pays :
      (ltb (due l) (half l) && not (l.finished && ltb acked l.done)) ≡ false
      → Pays acked l (record l { returned = l.consumed }) payment
  payment-Pays h = record { noted = refl; done = refl; ack = refl; credit = ground arith }

  -- The pipe either owes nothing and the ledger stays as it is, or it makes a payment.
  pub owed-cases :
      (owed acked l ≡ (l, none))
      ⊎ ((l' : Ledger) × (o : Owed) × (owed acked l ≡ (l', some o)) × Pays acked l l' o)
  unfolding owed
  owed-cases =
      if_cases
        (λ m.
          (m ≡ (l, none)) ⊎ ((l' : Ledger) × (o : Owed) × (m ≡ (l', some o)) × Pays acked l l' o))
        (not l.finished && (not l.ended && leb l.max_buffered l.held_bytes)) (λ _. inl refl)
        λ _.
          if_cases
            (λ m.
              (m ≡ (l, none))
              ⊎ ((l' : Ledger) × (o : Owed) × (m ≡ (l', some o)) × Pays acked l l' o))
            (ltb (due l) (half l) && not (l.finished && ltb acked l.done)) (λ _. inl refl)
            (λ pays. inr (record l { returned = l.consumed }, payment, refl, payment-Pays pays))

  -- With the input not over, the handler behind by less than the bytes that it may hold and half a
  -- window consumed and not returned, the pipe pays.
  pub owed-Pays :
      l.finished ≡ false
      → l.ended ≡ false
      → l.held_bytes < l.max_buffered
      → half l ≤ due l
      → (l' : Ledger) × (o : Owed) × (owed acked l ≡ (l', some o)) × Pays acked l l' o
  unfolding owed
  owed-Pays f e b h =
      (record l { returned = l.consumed }, payment, ground arith, payment-Pays (ground arith))
