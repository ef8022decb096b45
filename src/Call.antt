-- ===== src/Call.antt =====
-- The data of a call's input half (src/plexus/duplex_gate.rs): its refusals, its frames, and the
-- state of a call and of its gate.
use plexus_core.Base.{ℕ, Text, codes, Bool, true, false, Option, none, some, List, nat_eq}
use plexus_core.Errors.{PlexusError}

-- plexus_auth_core::duplex
pub record CallRef : Type 0 where
  pub conn : ℕ
  pub subscription : ℕ

pub record CallCeiling : Type 0 where
  pub credit : ℕ
  pub max_items : ℕ
  pub max_bytes : ℕ
  pub max_buffered : ℕ

pub data Answerer : Type 0 where
  caller person : Answerer
  grant : Text → Answerer

pub data DuplexRefusalCode : Type 0 where
  unauthenticated forbidden too_many_calls not_this_call past_credit too_much_input person_required
        input_closed out_of_sequence invalid_input :
      DuplexRefusalCode

pub data DuplexRefusal : Type 0 where
  gate : PlexusError → DuplexRefusal
  too_many_calls : (max : ℕ) → DuplexRefusal
  not_this_call : DuplexRefusal
  past_credit : (seq credit : ℕ) → DuplexRefusal
  too_much_input : (limit : Text) (max : ℕ) → DuplexRefusal
  person_required : DuplexRefusal
  input_closed : DuplexRefusal
  out_of_sequence : (seq expected : ℕ) → DuplexRefusal
  invalid_input : (seq : ℕ) (message : Text) → DuplexRefusal

-- DuplexRefusal::code
unfoldable pub code : DuplexRefusal → DuplexRefusalCode
code (DuplexRefusal.gate (PlexusError.unauthenticated _)) = DuplexRefusalCode.unauthenticated
code (DuplexRefusal.gate _) = DuplexRefusalCode.forbidden
code (DuplexRefusal.too_many_calls _) = DuplexRefusalCode.too_many_calls
code DuplexRefusal.not_this_call = DuplexRefusalCode.not_this_call
code (DuplexRefusal.past_credit _ _) = DuplexRefusalCode.past_credit
code (DuplexRefusal.too_much_input _ _) = DuplexRefusalCode.too_much_input
code DuplexRefusal.person_required = DuplexRefusalCode.person_required
code DuplexRefusal.input_closed = DuplexRefusalCode.input_closed
code (DuplexRefusal.out_of_sequence _ _) = DuplexRefusalCode.out_of_sequence
code (DuplexRefusal.invalid_input _ _) = DuplexRefusalCode.invalid_input

-- DuplexRefusal::kind; `as_str` is the code's text in plexus_auth_core.
unfoldable pub kind : (DuplexRefusalCode → Text) → DuplexRefusal → Text
unfolding code
kind as_str (DuplexRefusal.gate (PlexusError.forbidden _)) = codes "forbidden"
kind as_str (DuplexRefusal.gate (PlexusError.unauthenticated _)) = codes "unauthenticated"
kind as_str (DuplexRefusal.gate (PlexusError.invalid_params _ _)) = codes "invalid_params"
kind as_str (DuplexRefusal.gate _) = codes "error"
kind as_str other = as_str (code other)

-- A stray answer or frame does not end the input; every other refusal does.
unfoldable pub ends_input : DuplexRefusal → Bool
ends_input DuplexRefusal.not_this_call = false
ends_input DuplexRefusal.person_required = false
ends_input _ = true

pub data Overrun : Type 0 where
  credit : Overrun
  sequence : (expected : ℕ) → Overrun
  empty : Overrun

pub record InputFrame (I : Type 0) : Type 0 where
  pub from : ℕ
  pub seq : ℕ
  pub item : I
  pub items : ℕ
  pub bytes : ℕ
  pub overrun : Option Overrun

-- AuditRecord::duplex_refused
pub record AuditRecord (A : Type 0) : Type 0 where
  pub call : CallRef
  pub why : DuplexRefusalCode
  pub who : Option A
  pub grant : Text

-- What the calls of one gate share: how often it asked, and its audit queue, where it has one.
pub record DuplexGate (A : Type 0) : Type 0 where
  pub checks : ℕ
  pub audit : Option (List (AuditRecord A))

pub record DuplexCall (A : Type 0) : Type 0 where
  pub dg : DuplexGate A
  pub conn : ℕ
  pub at : CallRef
  pub caller : Option A
  pub grant : Text
  pub targets : List Text
  pub recheck : Bool
  pub seen : ℕ
  pub ceiling : CallCeiling
  pub credit : ℕ
  pub items : ℕ
  pub bytes : ℕ
  pub closed : Option DuplexRefusal
  pub answer_by : Answerer

abbrev pub is_some {ℓ} : {A : Type ℓ} → Option A → Bool
is_some none = false
is_some (some _) = true
