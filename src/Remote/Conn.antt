-- ===== src/Remote/Conn.antt =====
-- A call of a child opened, let go of and left by a connection that is gone (`Conn` of
-- src/plexus/remote_child/link.rs), each step under the lock of the routes.
use plexus_core.Base.{
  Option, ℕ, Text, codes, true, false, not, none, some, List, [], ◌∷◌, ◌++◌, if◌then◌else◌, nat_eq,
  text_eq,
}
use plexus_core.Base.Assoc.{Assoc, lookup, insert, remove}
use plexus_core.Base.Word.{add64}
use plexus_core.Json.{Value, string, get}
use plexus_core.Errors.{Result, ok, err}
use plexus_core.Remote.Routes.{
  without, Routes, no_routes, call, call_unsub, Handed, Conn, Wait, replied, reply_dropped, elapsed,
  Refused, OpenFail, gone, refused_open, Sub,
}

unfoldable pub reply_gone : Text → Assoc ℕ Sub → List (ℕ × Result OpenFail Text)
reply_gone why [] = []
reply_gone why ((id, s) ∷ pending) = (id, err (gone why)) ∷ reply_gone why pending

unfoldable pub abandon : ℕ → Routes → Routes
unfolding lookup insert remove
abandon id r = elim (lookup id r.pending) [
  | none ↦ r
  | some s ↦ record r { pending = remove id r.pending; abandoned = insert id tt r.abandoned }
]

-- `Value::as_str`
abbrev as_str : Option Value → Option Text
as_str (some (string s)) = some s
as_str _ = none

-- A `{ns}.call`'s params name the method called.
unfoldable pub called : Text → (params : Value) → Text
unfolding get
called method params = elim (as_str (get (codes "method") params)) [ none ↦ method | some m ↦ m ]

module _ {J : Type 0} where
  unfoldable pub new : Text → Conn J
  new name = record {
    name = name;
    ns = none;
    routes = no_routes;
    next_id = 1;
    alive = true;
    unasked = 0;
    sent = [];
    replies = [];
    handed = [];
    late = [];
  }

  -- Conn::ns
  unfoldable pub namespace : Conn J → Text
  namespace c = elim c.ns [ none ↦ c.name | some n ↦ n ]

  -- The id that a call waits on.
  unfoldable pub open_ : Text → (params : Value) → Conn J → Conn J × Result Refused ℕ
  unfolding insert add64 called
  open_ method params c =
      let id = c.next_id in
      let counted = record c { next_id = add64 id 1 } in
      let opened = record counted {
        routes = record c.routes {
          pending = insert id (record { tx = id; method = called method params }) c.routes.pending;
        };
        sent = call id method params ∷ c.sent;
      } in
      if not c.alive
      then (counted, err (Refused.unavailable (codes "the connection has closed")))
      else (opened, ok id)

  unfoldable pub open_end : ℕ → Wait → Conn J → Conn J × Result Refused Text
  unfolding abandon
  open_end id (replied (ok key)) c = (c, ok key)
  open_end id (replied (err (gone why))) c = (c, err (Refused.unavailable why))
  open_end id (replied (err (refused_open e))) c = (c, err (Refused.refused e))
  open_end id reply_dropped c =
      (c, err (Refused.unavailable (codes "the connection closed before the call opened")))
  open_end id elapsed c =
      (record c { routes = abandon id c.routes; late = id ∷ c.late }, err Refused.timed_out)

  -- The child is asked to end the call `key`.
  unfoldable pub ask_unsub : Text → Conn J → Conn J
  unfolding insert add64 namespace
  ask_unsub key c = record c {
    routes = record c.routes {
      closing = insert c.next_id key c.routes.closing;
      closing_subs = key ∷ without key c.routes.closing_subs;
    };
    next_id = add64 c.next_id 1;
    sent = call_unsub c.next_id (namespace c) key ∷ c.sent;
  }

  unfoldable pub forget : Text → Conn J → Conn J
  unfolding remove
  forget key c = record c { routes = record c.routes { subs = remove key c.routes.subs } }

  unfoldable pub unsubscribe : Text → Conn J → Conn J
  unfolding lookup forget ask_unsub
  unsubscribe key c = elim (lookup key c.routes.subs) [
    | none ↦ c
    | some s ↦ if not c.alive then forget key c else ask_unsub key (forget key c)
  ]

  -- Every subscription is handed the end, and every opening its failure.
  unfoldable pub hand_gone : Text → Assoc Text Sub → List (ℕ × Handed J)
  hand_gone why [] = []
  hand_gone why ((key, s) ∷ subs) = (s.tx, Handed.unavailable why) ∷ hand_gone why subs

  unfoldable pub on_gone : Text → Conn J → Conn J
  unfolding hand_gone reply_gone
  on_gone why c = record c {
    alive = false;
    routes = no_routes;
    handed = hand_gone why c.routes.subs ++ c.handed;
    replies = reply_gone why c.routes.pending ++ c.replies;
  }
