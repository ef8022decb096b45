-- ===== src/Remote/Message.antt =====
-- `Conn::on_message` (src/plexus/remote_child/link.rs). A message is one step: only the reader opens
-- a call's items. The steps of a connection's parts, in any order.
use plexus_core.Base.{
  ℕ, Text, codes, Bool, true, false, Option, none, some, List, [], ◌∷◌, ◌++◌, if◌then◌else◌, ◌==◌,
  nat_eq, text_eq,
}
use plexus_core.Base.Assoc.{lookup, insert, remove}
use plexus_core.Base.Word.{add64}
use plexus_core.Errors.{ok, err}
use plexus_core.Json.{Value, string, object, member, end}
use plexus_core.Pipe.{Item, request, done, error, other}
use plexus_core.Remote.Routes.{
  contains, expire_tails, no_service, Handed, item, unread_error, Conn, Notif, Msg, Reading,
  elapsed, refused_open, Sub,
}
use plexus_core.Remote.Conn.{open_, open_end, ask_unsub, forget, unsubscribe, on_gone}

abbrev or_neither : Option Value → Value
or_neither (some e) = e
or_neither none =
    object (member (codes "message") (string (codes "an answer with neither result nor error")) end)

-- What the parts of a service do to a connection.
pub data Move : Type 0 where
  opens : (method : Text) (params : Value) → Move
  times_out : (id : ℕ) → Move
  unsubscribes : (key : Text) → Move
  says : (now : ℕ) (raw : Text) → Move
  goes : (why : Text) → Move

module _ {J : Type 0} where
  unfoldable pub refuse_request : Value → Conn J → Conn J
  refuse_request id c = record c { sent = no_service id ∷ c.sent }

  abbrev pub hand : ℕ → Handed J → Conn J → Conn J
  hand tx h c = record c { handed = (tx, h) ∷ c.handed }

  -- Done and Error are the call's end.
  unfoldable pub is_end : Item J → Bool
  is_end (done j) = true
  is_end (error j) = true
  is_end (request i j) = false
  is_end (other j) = false

  unfoldable pub unasked_item : (now : ℕ) → Text → Conn J → Conn J
  unfolding expire_tails add64
  unasked_item now key c =
      let expired = record c { routes = expire_tails now c.routes } in
      if contains key expired.routes.closing_subs
      then expired
      else record expired { unasked = add64 c.unasked 1 }

  abbrev pub or_peer : Option (Item J) → Option (Item J) → Option (Item J)
  or_peer none peer = peer
  or_peer (some i) peer = some i

  unfoldable pub route : Reading J → (now : ℕ) → (key raw : Text) → Conn J → Conn J
  unfolding lookup unasked_item is_end forget unsubscribe
  route read now key raw c = elim (lookup key c.routes.subs) [
    | none ↦ unasked_item now key c
    | some s ↦ elim (or_peer (read.stream_item raw) (read.peer_item raw s.method)) [
      | some i ↦ hand s.tx (item i) (if is_end i then forget key c else c)
      | none ↦ elim (read.kind raw) [
        | none ↦ c
        | some kind ↦
            if kind == codes "error"
            then hand s.tx unread_error (forget key (unsubscribe key c))
            else c
      ]
    ]
  ]

  -- An open's answer: its subscription is routed before its caller is told.
  unfoldable pub opened : Reading J → ℕ → Sub → Option Text → Option Value → Conn J → Conn J
  unfolding insert remove
  opened read id items (some sid) e c =
      let key : Text = elim (read.value sid) [ some v ↦ read.to_string v | none ↦ sid ] in
      record c {
        routes = record c.routes {
          pending = remove id c.routes.pending;
          subs = insert key items c.routes.subs;
        };
        replies = (id, ok key) ∷ c.replies;
      }
  opened read id items none e c = record c {
    routes = record c.routes { pending = remove id c.routes.pending };
    replies = (id, err (refused_open (or_neither e))) ∷ c.replies;
  }

  unfoldable pub closed : (now id : ℕ) → Text → Conn J → Conn J
  unfolding remove expire_tails
  closed now id key c =
      let kept = expire_tails now (record c.routes { closing = remove id c.routes.closing }) in
      record c { routes = record kept { answered = kept.answered ++ ((now, key) ∷ []) } }

  -- A call opened after its caller was told `child_timeout`.
  unfoldable pub opened_late : Reading J → ℕ → Option Text → Conn J → Conn J
  unfolding remove ask_unsub
  opened_late read id result c =
      let known = record c {
        routes = record c.routes { abandoned = remove id c.routes.abandoned };
      } in
      elim result [
        | none ↦ known
        | some sid ↦ elim (read.value sid) [
          | none ↦ known
          | some v ↦ ask_unsub (read.to_string v) known
        ]
      ]

  unfoldable pub on_answer : Reading J → (now id : ℕ) → Msg → Conn J → Conn J
  unfolding lookup opened closed opened_late
  on_answer read now id msg c = elim (lookup id c.routes.pending) [
    | some items ↦ opened read id items msg.result msg.error c
    | none ↦ elim (lookup id c.routes.closing) [
      | some key ↦ closed now id key c
      | none ↦ elim (lookup id c.routes.abandoned) [
        | some there ↦ opened_late read id msg.result c
        | none ↦ c
      ]
    ]
  ]

  unfoldable pub on_notification : Reading J → (now : ℕ) → Option Notif → Conn J → Conn J
  unfolding route
  on_notification read now none c = c
  on_notification read now (some n) c = elim n.subscription [
    | none ↦ c
    | some sub ↦ elim n.result [ none ↦ c | some raw ↦ route read now (read.to_string sub) raw c ]
  ]

  unfoldable pub on_msg : Reading J → (now : ℕ) → Msg → Conn J → Conn J
  unfolding refuse_request on_notification on_answer
  on_msg read now msg c = elim msg.method [
    | some method ↦ elim msg.id [
      | some id ↦ refuse_request id c
      | none ↦ on_notification read now msg.params c
    ]
    | none ↦ elim msg.id [
      | none ↦ c
      | some v ↦ elim (read.as_u64 v) [ none ↦ c | some id ↦ on_answer read now id msg c ]
    ]
  ]

  unfoldable pub on_message : Reading J → (now : ℕ) → Text → Conn J → Conn J
  unfolding refuse_request on_msg
  on_message read now raw c = elim (read.msg raw) [
    | some msg ↦ on_msg read now msg c
    | none ↦ elim (read.loose raw) [ none ↦ c | some id ↦ refuse_request id c ]
  ]

  unfoldable pub move : Reading J → Move → Conn J → Conn J
  unfolding open_ open_end unsubscribe on_message on_gone
  move read (opens method params) c = (open_ method params c).0
  move read (times_out id) c = (open_end id elapsed c).0
  move read (unsubscribes key) c = unsubscribe key c
  move read (says now raw) c = on_message read now raw c
  move read (goes why) c = on_gone why c

  unfoldable pub moves : Reading J → List Move → Conn J → Conn J
  unfolding move
  moves read [] c = c
  moves read (m ∷ ms) c = moves read ms (move read m c)
