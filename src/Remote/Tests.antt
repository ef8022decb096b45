-- ===== src/Remote/Tests.antt =====
-- A child's messages at concrete pieces.
use plexus_core.Base.{Text, codes, none, some, List, [], ◌∷◌, ◌≡◌, refl, text_eq}
use plexus_core.Remote.Lines.{not_blank, read_lines, cut, concat, read_lines-cut}
use plexus_core.Base.Assoc.{lookup}
use plexus_core.Errors.{ok}
use plexus_core.Json.{Value, null, string, number, object, member, end}
use plexus_core.Remote.Routes.{Conn, Reading, call, call_unsub}
use plexus_core.Remote.Conn.{new, open_, on_gone}
use plexus_core.Remote.Message.{Move, opens, times_out, unsubscribes, says, moves}
use plexus_core.Remote.Gone.{Settled, moves-Settled_gone}
use plexus_core.Base.{◌≤◌, ℕ, Bool, ◌*◌, arith}
use plexus_core.Remote.Link.{
  second, Backoff, default_backoff, mounted, LinkMove, loses, turns, link_moves,
}
use plexus_core.Remote.Window.{recent}
use plexus_core.Remote.Restarts.{link_moves-recent}

-- Two messages and a blank line, in three pieces; what follows the last line feed is no message.
abbrev three_pieces : List Text
three_pieces = (97 ∷ 98 ∷ []) ∷ (99 ∷ 10 ∷ 32 ∷ 13 ∷ 10 ∷ []) ∷ (100 ∷ 10 ∷ 101 ∷ []) ∷ []

three_pieces_read : read_lines [] three_pieces ≡ some ((97 ∷ 98 ∷ 99 ∷ []) ∷ (100 ∷ []) ∷ [])
unfolding read_lines
three_pieces_read = refl

read_lines-cut_example :
    read_lines [] three_pieces ≡ some (not_blank (cut [] (concat three_pieces)).0)
read_lines-cut_example =
    read_lines-cut [] three_pieces ((λ h. cc h), ((λ h. cc h), ((λ h. cc h), tt)))

-- A reader whose every message is the answer of the first call, with a subscription.
abbrev answers_first : Reading Text
answers_first = record {
  msg = λ raw. some (record {
    id = some (number (codes "1"));
    result = some (codes "4");
    error = none;
    method = none;
    params = none;
  });
  loose = λ raw. none;
  value = λ raw. some (number raw);
  to_string = λ v. codes "4";
  as_u64 = λ v. some 1;
  stream_item = λ raw. none;
  peer_item = λ raw method. none;
  kind = λ raw. none;
}

abbrev counting : Value
counting = object (member (codes "method") (string (codes "m.count")) end)

abbrev child : Conn Text
child = new (codes "math")

abbrev answer : Move
answer = says 0 (codes "{}")

opens_first : (open_ (codes "m.call") counting child).1 ≡ ok 1
unfolding open_ new
opens_first = refl

-- The answer comes first, the call goes on, and the child goes.
moves-Settled_gone_example : Settled 1 (
    moves answers_first (opens (codes "_info") null ∷ answer ∷ []) (
      on_gone (codes "exited") (
        moves answers_first
          (answer ∷ unsubscribes (codes "5") ∷ [])
          (open_ (codes "m.call") counting child).0)))
moves-Settled_gone_example =
    moves-Settled_gone answers_first 1 (codes "m.call") (codes "exited") counting
      (answer ∷ unsubscribes (codes "5") ∷ []) (opens (codes "_info") null ∷ answer ∷ []) child
      opens_first

-- An answer that comes after the wait is over is unsubscribed; one that comes as it is, but before
-- the lock is taken, is not, and its items are routed to no one.
late_answer_unsubscribed :
    let c : Conn Text =
      moves answers_first (times_out 1 ∷ answer ∷ []) (open_ (codes "m.call") counting child).0 in
    (c.routes.subs ≡ [])
    × (c.sent ≡ call_unsub 2 (codes "math") (codes "4") ∷ call 1 (codes "m.call") counting ∷ [])
unfolding moves open_ lookup new
late_answer_unsubscribed = (refl, refl)

racing_answer_left :
    let c : Conn Text =
      moves answers_first (answer ∷ times_out 1 ∷ []) (open_ (codes "m.call") counting child).0 in
    (lookup (codes "4") c.routes.subs ≡ some (record { tx = 1; method = codes "m.count" }))
    × (c.sent ≡ call 1 (codes "m.call") counting ∷ [])
unfolding moves open_ lookup new
racing_answer_left = (refl, refl)

-- A child that exits as soon as it is started: every connection is another.
abbrev exits : (conn at : ℕ) → LinkMove
exits c at = loses (record { conn = c; at = at; why = codes "the process exited" })

abbrev asked : (now slept conn : ℕ) → LinkMove
asked now slept c = turns (record {
  seen = mounted 1 (codes "h");
  alive_first = λ conn. Bool.false;
  alive_then = λ conn. Bool.true;
  now = now;
  asleep = [];
  slept = some slept;
  connecting = [];
  connected = some (ok (c, codes "h"));
  failed_at = 0;
})

abbrev twice_a_minute : Backoff
twice_a_minute = record default_backoff { per_minute = 2 }

abbrev failing : List LinkMove
failing =
    exits 1 second
    ∷ asked (2 * second) (2 * second) 2
    ∷ exits 2 (3 * second)
    ∷ asked (3 * second) (4 * second) 3
    ∷ exits 3 (5 * second)
    ∷ asked (5 * second) (7 * second) 4
    ∷ []

-- The third start of the minute is refused.
failing_restarted :
    (link_moves twice_a_minute (10 * second) failing (mounted 1 (codes "h"))).restarted
    ≡ 2 * second ∷ 4 * second ∷ []
unfolding link_moves mounted
failing_restarted = refl

link_moves-recent_example :
    recent
      (9 * second)
      (link_moves twice_a_minute (10 * second) failing (mounted 1 (codes "h"))).restarted
    ≤ 2
link_moves-recent_example =
    link_moves-recent twice_a_minute (10 * second) 0 (9 * second) failing 1 (codes "h")
      (omega arith)
