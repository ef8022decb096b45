-- ===== src/Duplex.antt =====
-- The gate over a call's input half (src/plexus/duplex_gate.rs): what each operation of an open
-- call does to it. Duplex/Open opens a call and answers its questions, Duplex/Loop is the loop of
-- `DuplexCall::input`.
pub mod Open
pub mod Admission
pub mod Loop
pub mod Authority
pub mod Audit
pub mod Credit
pub mod Answers
pub mod Tests
use plexus_core.Base.{
  ℕ, ◌≤◌, Text, codes, Bool, true, false, not, ◌&&◌, ◌||◌, Option, none, some, List, [], ◌∷◌, ◌++◌,
  if◌then◌else◌, ltb, ◌==◌, nat_eq,
}
use plexus_core.Base.Word.{add64, sat_add64}
use plexus_core.Errors.{PlexusError, Result, ok, err}
use plexus_core.Auth.{Gate}
use plexus_core.GrantGate.{gate_check}
use plexus_core.Call.{
  CallRef, CallCeiling, Answerer, DuplexRefusalCode, DuplexRefusal, code, Overrun, InputFrame,
  AuditRecord, DuplexGate, DuplexCall, is_some,
}
use plexus_core.Call

-- `.map(drop).map_err(DuplexRefusal::Gate)`
abbrev pub asked {ℓ} : {R : Type ℓ} → Result PlexusError R → Result DuplexRefusal (Unit {0})
asked (ok _) = ok tt
asked (err e) = err (DuplexRefusal.gate e)

abbrev pub no_items : ℕ → DuplexRefusal
no_items seq = DuplexRefusal.invalid_input seq (codes "an input frame with no items")

module _ {A Reach : Type 0} where
  -- DuplexGate::check
  unfoldable pub check :
      Gate A Reach
      → DuplexGate A
      → Option A
      → Text
      → Option Text
      → DuplexGate A × Result DuplexRefusal (Unit {0})
  unfolding add64
  check g dg who name target =
      (record dg { checks = add64 dg.checks 1 }, asked (gate_check g who name target))

module _ {A : Type 0} where
  abbrev pub offer : AuditRecord A → Option (List (AuditRecord A)) → Option (List (AuditRecord A))
  offer r none = none
  offer r (some q) = some (q ++ r ∷ [])

  -- DuplexGate::audited, which hands back the refusal that it is given.
  unfoldable pub audited : DuplexGate A → CallRef → Option A → Text → DuplexRefusal → DuplexGate A
  unfolding code
  audited dg at who name why = record dg {
    audit = offer (record { call = at; why = code why; who = who; grant = name }) dg.audit;
  }

  -- DuplexCall::refuse and DuplexCall::close
  unfoldable pub refuse :
      DuplexCall A → DuplexRefusal → DuplexCall A × Result DuplexRefusal (Unit {0})
  unfolding audited
  refuse c why = (record c { dg = audited c.dg c.at c.caller c.grant why }, err why)

  unfoldable pub close :
      DuplexCall A → DuplexRefusal → DuplexCall A × Result DuplexRefusal (Unit {0})
  unfolding audited
  close c why =
      (record c { dg = audited c.dg c.at c.caller c.grant why; closed = some why }, err why)

  unfoldable pub grant_credit : ℕ → DuplexCall A → DuplexCall A
  unfolding sat_add64
  grant_credit n c = record c { credit = sat_add64 c.credit n }

  -- DuplexCall::expire
  unfoldable pub expire : DuplexCall A → DuplexCall A × DuplexRefusal
  unfolding close
  expire c =
      let why =
        DuplexRefusal.gate
          (PlexusError.unauthenticated (codes "your sign-in has expired: sign in again")) in
      ((close c why).0, why)

  -- The part of `admit` behind the checks of who sends and of the grant.
  unfoldable pub take_in :
      {I : Type 0} → DuplexCall A → InputFrame I → DuplexCall A × Result DuplexRefusal (Unit {0})
  unfolding close
  take_in c f = elim f.overrun [
    | some o ↦ elim o [
      | Overrun.credit ↦ close c (DuplexRefusal.past_credit f.seq c.credit)
      | Overrun.sequence expected ↦ close c (DuplexRefusal.out_of_sequence f.seq expected)
      | Overrun.empty ↦ close c (no_items f.seq)
    ]
    | none ↦
        if f.items == 0
        then close c (no_items f.seq)
        else if ltb c.credit (sat_add64 c.items f.items)
        then close c (DuplexRefusal.past_credit f.seq c.credit)
        else if ltb c.ceiling.max_items (sat_add64 c.items f.items)
        then close c (DuplexRefusal.too_much_input (codes "items") c.ceiling.max_items)
        else if ltb c.ceiling.max_bytes (sat_add64 c.bytes f.bytes)
        then close c (DuplexRefusal.too_much_input (codes "bytes") c.ceiling.max_bytes)
        else (
          record c { items = sat_add64 c.items f.items; bytes = sat_add64 c.bytes f.bytes },
          ok tt,
        )
  ]

module _ {A Reach : Type 0} (g : Gate A Reach) where
  -- `targets.iter().try_for_each(check)`: the first refusal ends it.
  unfoldable pub check_each :
      DuplexGate A → Option A → Text → List Text → DuplexGate A × Result DuplexRefusal (Unit {0})
  unfolding check
  check_each dg who name [] = (dg, ok tt)
  check_each dg who name (t ∷ ts) =
      let (dg', r) = check g dg who name (some t) in
      elim r [ ok _ ↦ check_each dg' who name ts | err e ↦ (dg', err e) ]

  abbrev pub check_targets :
      DuplexGate A → Option A → Text → List Text → DuplexGate A × Result DuplexRefusal (Unit {0})
  check_targets dg who name [] = check g dg who name none
  check_targets dg who name (t ∷ ts) = check_each dg who name (t ∷ ts)

  abbrev pub ask_again : DuplexCall A → DuplexGate A × Result DuplexRefusal (Unit {0})
  ask_again c =
      if not c.recheck then (c.dg, ok tt) else check_targets c.dg c.caller c.grant c.targets

  -- DuplexCall::reverify
  unfoldable pub reverify : DuplexCall A → DuplexCall A × Result DuplexRefusal (Unit {0})
  unfolding check_each close
  reverify c =
      let (dg', r) = ask_again c in
      elim r [
        | ok _ ↦ (record c { dg = dg'; seen = g.generation }, ok tt)
        | err e ↦ close (record c { dg = dg' }) e
      ]

  -- `self.reverify()?` before the rest of `admit`
  abbrev pub admit_verified :
      {I : Type 0}
      → InputFrame I
      → DuplexCall A × Result DuplexRefusal (Unit {0})
      → DuplexCall A × Result DuplexRefusal (Unit {0})
  admit_verified f (c, ok _) = take_in c f
  admit_verified f (c, err e) = (c, err e)

  -- DuplexCall::admit
  unfoldable pub admit :
      {I : Type 0} → DuplexCall A → InputFrame I → DuplexCall A × Result DuplexRefusal (Unit {0})
  unfolding refuse reverify take_in
  admit c f =
      if is_some c.closed
      then refuse c DuplexRefusal.input_closed
      else if not (f.from == c.conn)
      then refuse c DuplexRefusal.not_this_call
      else if not (g.generation == c.seen)
      then admit_verified f (reverify c)
      else take_in c f
