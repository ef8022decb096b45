-- ===== src/Remote/Routes.antt =====
-- The state of a connection to a child (src/plexus/remote_child/link.rs): `Routes`, `Conn`, its
-- messages. What serde reads, and a peer of main's (src/plexus/remote_child/peer.rs), are parameters.
use plexus_core.Base.{
  ℕ, ◌-◌, Text, Bool, Option, List, [], ◌∷◌, if◌then◌else◌, ◌==◌, nat_eq, text_eq, any, leb,
}
use plexus_core.Base.Assoc.{Assoc}
use plexus_core.Errors.{Result}
use plexus_core.Json.{Value}
use plexus_core.Pipe.{Item}

pub data OpenFail : Type 0 where
  gone : (why : Text) → OpenFail
  refused_open : (error : Value) → OpenFail

-- The items' channel is named by the id of its call.
pub record Sub : Type 0 where
  pub tx : ℕ
  pub method : Text

-- `HashSet::contains` and `HashSet::remove`
abbrev pub contains : Text → List Text → Bool
contains k ks = any (λ j. j == k) ks

unfoldable pub without : Text → List Text → List Text
without k [] = []
without k (j ∷ js) = let rest = without k js in if j == k then rest else j ∷ rest

abbrev pub tail_ms : ℕ
tail_ms = 250

-- An `Opening` is its items: its reply is named by the same id.
pub record Routes : Type 0 where
  pub pending : Assoc ℕ Sub
  pub subs : Assoc Text Sub
  pub closing : Assoc ℕ Text
  pub closing_subs : List Text
  pub answered : List (ℕ × Text)
  pub abandoned : Assoc ℕ (Unit {0})

abbrev pub no_routes : Routes
no_routes = record {
  pending = [];
  subs = [];
  closing = [];
  closing_subs = [];
  answered = [];
  abandoned = [];
}

-- The tails answered long enough ago, from the front, are over.
unfoldable pub expire : (now : ℕ) → List (ℕ × Text) → List Text → List (ℕ × Text) × List Text
unfolding without
expire now [] closing = ([], closing)
expire now ((t, key) ∷ answered) closing =
    let later = expire now answered (without key closing) in
    if leb tail_ms (now - t) then later else ((t, key) ∷ answered, closing)

unfoldable pub expire_tails : (now : ℕ) → Routes → Routes
unfolding expire
expire_tails now r =
    let kept = expire now r.answered r.closing_subs in
    record r { answered = kept.0; closing_subs = kept.1 }

-- What is put on the wire.
pub data Frame : Type 0 where
  call : (id : ℕ) (method : Text) (params : Value) → Frame
  call_unsub : (id : ℕ) (ns key : Text) → Frame
  no_service : (id : Value) → Frame

-- What a call's receiver is handed.
pub data Handed (J : Type 0) : Type 0 where
  item : Item J → Handed J
  unavailable : (why : Text) → Handed J
  unread_error : Handed J

-- What was sent, replied, handed on and timed out, the newest first.
pub record Conn (J : Type 0) : Type 0 where
  pub name : Text
  pub ns : Option Text
  pub routes : Routes
  pub next_id : ℕ
  pub alive : Bool
  pub unasked : ℕ
  pub sent : List Frame
  pub replies : List (ℕ × Result OpenFail Text)
  pub handed : List (ℕ × Handed J)
  pub late : List ℕ

pub record Notif : Type 0 where
  pub subscription : Option Value
  pub result : Option Text

pub record Msg : Type 0 where
  pub id : Option Value
  pub result : Option Text
  pub error : Option Value
  pub method : Option Text
  pub params : Option Notif

-- `serde_json` on a message (`loose` where it is a request with an id), on a subscription's id, on
-- an item, and on an item of a peer of main's.
pub record Reading (J : Type 0) : Type 0 where
  pub msg : Text → Option Msg
  pub loose : Text → Option Value
  pub value : Text → Option Value
  pub to_string : Value → Text
  pub as_u64 : Value → Option ℕ
  pub stream_item : Text → Option (Item J)
  pub peer_item : (raw method : Text) → Option (Item J)
  pub kind : Text → Option Text

-- What became of the wait for a reply.
pub data Wait : Type 0 where
  replied : Result OpenFail Text → Wait
  reply_dropped : Wait
  elapsed : Wait

pub data Refused : Type 0 where
  unavailable : (why : Text) → Refused
  refused : (error : Value) → Refused
  timed_out : Refused
