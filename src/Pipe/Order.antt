-- ===== src/Pipe/Order.antt =====
-- When the pipe says that the input is closed.
use plexus_core.Base.{
  ℕ, Text, Bool, true, false, not, List, [], ◌∷◌, ◌≡◌, refl, arith, if_cases, ◌==◌, ◌&&◌, ◌||◌,
  nat_eq, any, All, any,
}
use plexus_core.Call.{DuplexRefusalCode}
use plexus_core.Input.Ledger.{Ledger}
use plexus_core.Pipe.{
  Said, credit, ack, item, refused_item, failed_item, input_closed, Event, say, go_on, run_duplex,
}
use plexus_core.Pipe.Saying.{is_closed, is_final, Law, run-Ends}

-- As the client reads it: the input is closed once at most, and after nothing final. The newest
-- stands first.
unfoldable pub closes_once : {J : Type 0} → List (Said J) → Bool
closes_once [] = true
closes_once (m ∷ s) =
    (not (is_closed m) || not (any is_closed s || any is_final s)) && closes_once s

-- And nothing final comes before the input is closed.
unfoldable pub closes_first : {J : Type 0} → List (Said J) → Bool
closes_first [] = true
closes_first (m ∷ s) = (not (is_final m) || any is_closed s) && closes_first s

-- The client goes on with its input.
abbrev pub KeepsOpen : (Ledger → Ledger) → Type 0
KeepsOpen f = (l : Ledger) → l.ended ≡ false → (f l).ended ≡ false

final-open : {J : Type 0} (m : Said J) → is_final m ≡ true → is_closed m ≡ false
final-open (input_closed reason acked) h = cc
final-open (credit n) h = refl
final-open (ack n) h = refl
final-open (item it) h = refl
final-open (refused_item why) h = refl
final-open (failed_item j) h = refl

module _ {J : Type 0} where
  abbrev Once : List (Said J) → Bool → Bool → Type 0
  Once s slot ended =
      (closes_once s ≡ true) × (slot ≡ true → (any is_closed s || any is_final s) ≡ false)

  once : Law J
  unfolding closes_once
  once = record {
    Holds = Once;
    Ends = λ s. closes_once s ≡ true;
    Stays = λ f. Unit {0};
    ends = λ s slot ended h. h.0;
    plain = λ s slot ended m c f h. (ground arith, λ e. let k = h.1 e in ground arith);
    final = λ s ended m f h. let c = final-open m f in (ground arith, λ e. cc);
    closing = λ s reason acked h. let k = h.1 refl in (ground arith, λ e. cc);
    dropping = λ s h. (h.0, λ e. cc);
    stays = λ f s slot l t h. h;
  }

  abbrev First : List (Said J) → Bool → Bool → Type 0
  First s slot ended =
      (ended ≡ false) × (closes_first s ≡ true) × (slot ≡ false → any is_closed s ≡ true)

  first : Law J
  unfolding closes_first
  first = record {
    Holds = First;
    Ends = λ s. closes_first s ≡ true;
    Stays = KeepsOpen;
    ends = λ s slot ended h. h.1;
    plain = λ s slot ended m c f h. (h.0, ground arith, λ e. let k = h.2 e in ground arith);
    final = λ s ended m f h. let k = h.2 refl in (h.0, ground arith, λ e. ground arith);
    closing = λ s reason acked h. (refl, ground arith, λ e. refl);
    dropping = λ s h. cc;
    stays = λ f s slot l t h. (t l h.0, h.1, h.2);
  }

anything_goes : {J : Type 0} (es : List ((Ledger → Ledger) × Event J)) → All (λ e. Unit {0}) es
anything_goes [] = tt
anything_goes (e ∷ es) = (tt, anything_goes es)

module _ {J : Type 0} (as_str : DuplexRefusalCode → Text) where
  -- Whatever wakes the loop, in whatever order, whatever the reader and the handler do to the ledger
  -- between its turns, and whenever the socket goes: the client is told once at most that its input
  -- is closed, and never after anything final (the method's done or error, a refusal, a failure).
  pub run_duplex-closes_once :
      (es : List ((Ledger → Ledger) × Event J)) (l : Ledger) (lasts : ℕ)
      → closes_once (run_duplex as_str es l lasts).said ≡ true
  unfolding run_duplex say closes_once once
  run_duplex-closes_once es l lasts =
      if_cases (λ r. closes_once (go_on as_str es r).said ≡ true) (lasts == 0) (λ gone. refl)
        (λ there. run-Ends once as_str es _ (anything_goes es) (refl, λ e. refl))

  -- Where the client goes on with its input all along, it is told that its input is closed before it
  -- is told anything final.
  pub run_duplex-closes_first :
      (es : List ((Ledger → Ledger) × Event J)) (l : Ledger) (lasts : ℕ)
      → l.ended ≡ false
      → All (λ e. KeepsOpen e.0) es
      → closes_first (run_duplex as_str es l lasts).said ≡ true
  unfolding run_duplex say closes_first first
  run_duplex-closes_first es l lasts going stays =
      if_cases (λ r. closes_first (go_on as_str es r).said ≡ true) (lasts == 0) (λ gone. refl)
        (λ there. run-Ends first as_str es _ stays (going, refl, λ e. cc))
