-- ===== src/Pipe/Saying.antt =====
-- What a law on what the pipe has said needs of each way that the loop speaks, and that it then
-- holds of every run.
use plexus_core.Base.{
  ℕ, suc, Text, codes, Bool, true, false, not, Option, none, some, List, [], ◌∷◌, ◌≡◌, refl, arith,
  if_cases, ◌-◌, ◌==◌, ◌&&◌, nat_eq, inl, inr, All, ltb, sym,
}
use mathlib.Core.Path.{subst}
use plexus_core.Errors.{Result, Result-cases, ok, err, ◌>>=◌}
use plexus_core.Call.{DuplexRefusal, DuplexRefusalCode, kind}
use plexus_core.Input.Ledger.{Ledger, Owed, owed, take_refusal, last_done}
use plexus_core.Pipe.{
  Item, request, done, error, other, Said, credit, ack, input_closed, item, refused_item,
  failed_item, Event, client_left, batch, gate_refused, gate_ended, woken, route_failed, output,
  Pipe, say, close_slot, say_ack, say_credit, pay, end_with, let_go, say_item, say_refused, settle,
  settle_taken, turn, run,
}

abbrev pub is_closed : {J : Type 0} → Said J → Bool
is_closed (input_closed reason acked) = true
is_closed _ = false

-- What nothing follows, as the client reads it.
abbrev pub is_final : {J : Type 0} → Said J → Bool
is_final (item (done j)) = true
is_final (item (error j)) = true
is_final (refused_item why) = true
is_final (failed_item j) = true
is_final _ = false

owed-ended : (acked : ℕ) (l : Ledger) → (owed acked l).0.ended ≡ l.ended
unfolding owed
owed-ended acked l = ground arith

-- `Holds said slot ended` while the loop goes on, `Ends said` when it is over; `Stays` is what the
-- other parts may do to the ledger.
pub record Law (J : Type 0) : Type 1 where
  pub Holds : List (Said J) → Bool → Bool → Type 0
  pub Ends : List (Said J) → Type 0
  pub Stays : (Ledger → Ledger) → Type 0
  pub ends : (s : List (Said J)) (slot ended : Bool) → Holds s slot ended → Ends s
  pub plain :
      (s : List (Said J)) (slot ended : Bool) (m : Said J)
      → is_closed m ≡ false
      → is_final m ≡ false
      → Holds s slot ended
      → Holds (m ∷ s) slot ended
  pub final :
      (s : List (Said J)) (ended : Bool) (m : Said J)
      → is_final m ≡ true
      → Holds s false ended
      → Holds (m ∷ s) false ended
  pub closing :
      (s : List (Said J)) (reason : Text) (acked : Option ℕ)
      → Holds s true false
      → Holds (input_closed reason acked ∷ s) false false
  pub dropping : (s : List (Said J)) → Holds s true true → Holds s false true
  pub stays :
      (f : Ledger → Ledger) (s : List (Said J)) (slot : Bool) (l : Ledger)
      → Stays f
      → Holds s slot l.ended
      → Holds s slot (f l).ended

module _ {J : Type 0} (law : Law J) where
  abbrev Now : Pipe J → Type 0
  Now p = law.Holds p.said p.slot p.ledger.ended

  -- With the slot given up.
  abbrev Closed : Pipe J → Type 0
  Closed p = Now p × (p.slot ≡ false)

  abbrev After : (Pipe J → Type 0) → Result (Pipe J) (Pipe J) → Type 0
  After P (ok p) = P p
  After P (err p) = law.Ends p.said

  After-bind :
      (P Q : Pipe J → Type 0) (m : Result (Pipe J) (Pipe J)) (k : Pipe J → Result (Pipe J) (Pipe J))
      → After P m
      → ((p : Pipe J) → P p → After Q (k p))
      → After Q (m >>= k)
  After-bind P Q (ok p) k h next = next p h
  After-bind P Q (err p) k h next = h

  say-After :
      (P : Pipe J → Type 0) (m : Said J) (p : Pipe J)
      → law.Ends p.said
      → P (record p { said = m ∷ p.said; lasts = p.lasts - 1 })
      → After P (say m p)
  unfolding say
  say-After P m p h k = if_cases (After P) (p.lasts == 0) (λ gone. h) (λ there. k)

  plain-After :
      (m : Said J) (p : Pipe J)
      → is_closed m ≡ false
      → is_final m ≡ false
      → Now p
      → After Now (say m p)
  plain-After m p c f h =
      say-After Now m p (law.ends p.said p.slot p.ledger.ended h)
        (law.plain p.said p.slot p.ledger.ended m c f h)

  final-After : (m : Said J) (p : Pipe J) → is_final m ≡ true → Closed p → After Now (say m p)
  final-After m p f (h, shut) = say-After Now m p (law.ends p.said p.slot p.ledger.ended h) (
      subst (λ b. law.Holds (m ∷ p.said) b p.ledger.ended) (sym shut)
        (law.final p.said p.ledger.ended m f
          (subst (λ b. law.Holds p.said b p.ledger.ended) shut h)))

  -- Told that the input is closed, where there is one to close, or nothing to tell.
  close_slot-After : (reason : Text) (p : Pipe J) → Now p → After Closed (close_slot reason p)
  unfolding close_slot
  close_slot-After reason p h =
      if_cases (After Closed) p.slot
        (λ there.
          let held = subst (λ b. law.Holds p.said b p.ledger.ended) there h in
          if_cases (After Closed) p.ledger.ended
            (λ ended.
              let at_end = subst (λ b. law.Holds p.said true b) ended held in
              (
                subst (λ b. law.Holds p.said false b) (sym ended) (law.dropping p.said at_end),
                refl,
              ))
            (λ going.
              let m = input_closed reason (last_done p.ledger) in
              let before = subst (λ b. law.Holds p.said true b) going held in
              let now = law.closing p.said reason (last_done p.ledger) before in
              say-After Closed m (record p { slot = false })
                (law.ends p.said p.slot p.ledger.ended h)
                (subst (λ b. law.Holds (m ∷ p.said) false b) (sym going) now, refl)))
        (λ gone. (h, gone))

  say_ack-After : (seq : Option ℕ) (p : Pipe J) → Now p → After Now (say_ack seq p)
  say_ack-After none p h = h
  say_ack-After (some seq) p h = plain-After (ack seq) p refl refl h

  say_credit-After : (n : ℕ) (p : Pipe J) → Now p → After Now (say_credit n p)
  unfolding say_credit
  say_credit-After n p h =
      if_cases (After Now) (ltb 0 n)
        (λ pays. plain-After (credit n) (record p { granted = n ∷ p.granted }) refl refl h)
        (λ pays_none. h)

  pay-After :
      (o : Ledger × Option Owed) (p : Pipe J)
      → law.Holds p.said p.slot o.0.ended
      → After Now (pay o p)
  unfolding pay
  pay-After (l, none) p h = h
  pay-After (l, some o) p h =
      After-bind Now Now (say_ack o.ack (record p { ledger = l })) _
        (say_ack-After o.ack (record p { ledger = l }) h)
        (λ p' h'. say_credit-After o.credit (record p' { acked = o.done }) h')

  owed-After : (p : Pipe J) → Now p → After Now (pay (owed p.acked p.ledger) p)
  owed-After p h =
      pay-After (owed p.acked p.ledger) p
        (subst (λ b. law.Holds p.said p.slot b) (sym (owed-ended p.acked p.ledger)) h)

  end_with-After :
      (m : Said J) (p : Pipe J) → is_final m ≡ true → Closed p → After Now (end_with m p)
  unfolding end_with
  end_with-After m p f h =
      After-bind Now Now (say m p) err (final-After m p f h)
        (λ p' h'. law.ends p'.said p'.slot p'.ledger.ended h')

  let_go-After : (p : Pipe J) → Now p → After Now (let_go p)
  unfolding let_go
  let_go-After p h =
      if_cases (After Now) (p.ledger.abandoned && (p.slot && not p.ledger.ended))
        (λ lets.
          let there : p.slot ≡ true = ground arith in
          let going : p.ledger.ended ≡ false = ground arith in
          let m = input_closed (codes "method_ended") (last_done p.ledger) in
          let held = subst (λ b. law.Holds p.said b p.ledger.ended) there h in
          let before = subst (λ b. law.Holds p.said true b) going held in
          let now = law.closing p.said (codes "method_ended") (last_done p.ledger) before in
          say-After Now m (record p { slot = false; inbox = false })
            (law.ends p.said p.slot p.ledger.ended h)
            (subst (λ b. law.Holds (m ∷ p.said) false b) (sym going) now))
        (λ holds. h)

  say_item-After : (it : Option (Option (Item J))) (p : Pipe J) → Now p → After Now (say_item it p)
  unfolding say_item
  say_item-After none p h = h
  say_item-After (some none) p h = law.ends p.said p.slot p.ledger.ended h
  say_item-After (some (some (request id j))) p h =
      plain-After (item (request id j)) (record p { asked = id ∷ p.asked }) refl refl h
  say_item-After (some (some (done j))) p h =
      After-bind Closed Now (close_slot (codes "method_ended") (record p { inbox = false })) _
        (close_slot-After (codes "method_ended") (record p { inbox = false }) h)
        (λ p' h'. final-After (item (done j)) p' refl h')
  say_item-After (some (some (error j))) p h =
      After-bind Closed Now (close_slot (codes "method_ended") (record p { inbox = false })) _
        (close_slot-After (codes "method_ended") (record p { inbox = false }) h)
        (λ p' h'. final-After (item (error j)) p' refl h')
  say_item-After (some (some (other j))) p h = plain-After (item (other j)) p refl refl h

module _ {J : Type 0} (law : Law J) (as_str : DuplexRefusalCode → Text) where
  settle-After :
      (it : Option (Option (Item J))) (refused : Option DuplexRefusal) (p : Pipe J)
      → Now law p
      → After law (Now law) (settle as_str it refused p)
  unfolding settle say_refused
  settle-After it (some why) p h =
      After-bind law (Now law) (Now law) (pay (owed p.acked p.ledger) p) _ (owed-After law p h)
        (λ p' h'.
          After-bind law (Closed law) (Now law) (close_slot (kind as_str why) p') _
            (close_slot-After law (kind as_str why) p' h')
            (λ p'' h''. end_with-After law (refused_item why) p'' refl h''))
  settle-After it none p h =
      After-bind law (Now law) (Now law) (pay (owed p.acked p.ledger) p) _ (owed-After law p h)
        (λ p' h'.
          After-bind law (Now law) (Now law) (let_go p') (say_item it) (let_go-After law p' h')
            (λ p'' h''. say_item-After law it p'' h''))

  settle_taken-After :
      (it : Option (Option (Item J))) (p : Pipe J)
      → Now law p
      → After law (Now law) (settle_taken as_str it p)
  unfolding settle_taken take_refusal
  settle_taken-After it p h =
      settle-After it p.ledger.refusal (record p { ledger = (take_refusal p.ledger).0 }) h

  turn-After : (e : Event J) (p : Pipe J) → Now law p → After law (Now law) (turn as_str e p)
  unfolding turn
  turn-After client_left p h = law.ends p.said p.slot p.ledger.ended h
  turn-After batch p h =
      if_cases (After law (Now law)) p.inbox
        (λ there. settle_taken-After none (record p { handed = suc p.handed }) h) (λ gone. h)
  turn-After (gate_refused why) p h =
      if_cases (After law (Now law)) p.inbox (λ there. settle-After none (some why) p h) (λ gone. h)
  turn-After gate_ended p h =
      if_cases (After law (Now law)) p.inbox
        (λ there. settle_taken-After none (record p { inbox = false }) h) (λ gone. h)
  turn-After woken p h = settle_taken-After none p h
  turn-After (route_failed j) p h =
      After-bind law (Closed law) (Now law) (close_slot (codes "method_ended") p) _
        (close_slot-After law (codes "method_ended") p h)
        (λ p' h'. end_with-After law (failed_item j) p' refl h')
  turn-After (output it) p h = settle_taken-After (some it) p h

  pub run-Ends :
      (es : List ((Ledger → Ledger) × Event J)) (p : Pipe J)
      → All (λ e. law.Stays e.0) es
      → Now law p
      → law.Ends (run as_str es p).said
  unfolding run
  run-Ends [] p hs h = law.ends p.said p.slot p.ledger.ended h
  run-Ends ((others, e) ∷ es) p (stay, hs) h =
      let p₀ = record p { ledger = others p.ledger } in
      let after = turn-After e p₀ (law.stays others p.said p.slot p.ledger stay h) in
      elim (Result-cases (turn as_str e p₀)) [
        | inl (p', went_on) ↦
            rw (went_on, run) (run-Ends es p' hs (subst (After law (Now law)) went_on after))
        | inr (p', over) ↦ rw (over, run) (subst (After law (Now law)) over after)
      ]
