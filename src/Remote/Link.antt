-- ===== src/Remote/Link.antt =====
-- `Shared` of src/plexus/remote_child/link.rs and `Backoff` of src/plexus/remote_child/spec.rs: a
-- child across its connections. Times and durations are in nanoseconds. What is lost while a call of
-- `ensure` waits, and how its waits end, are part of its turn; a turn holds the dial's lock.
use plexus_core.Base.{
  ℕ, ◌-◌, ◌*◌, ◌^◌, ◌+◌, ◌∷◌, min, Text, codes, Bool, Option, none, some, List, [], ◌++◌,
  if◌then◌else◌, ◌==◌, nat_eq, text_eq, leb, ltb, length,
}
use plexus_core.Errors.{Result, ok, err}

abbrev pub second : ℕ
second = 1000000000

abbrev pub minute : ℕ
minute = 60 * second

-- Duration::MAX
abbrev duration_max : ℕ
duration_max = (2 ^ 64 - 1) * second + (second - 1)

pub record Backoff : Type 0 where
  pub initial : ℕ
  pub max : ℕ
  pub per_minute : ℕ

abbrev pub default_backoff : Backoff
default_backoff = record { initial = 500000000; max = 30 * second; per_minute = 5 }

unfoldable pub delay : Backoff → ℕ → ℕ
delay b n = min (min (b.initial * 2 ^ min n 31) duration_max) b.max

-- `LinkState`, the mounted schema's hash, and what was done: the restarts, the oldest first, and the
-- connections that were asked to end.
pub record Link : Type 0 where
  pub conn : Option ℕ
  pub down_since : Option ℕ
  pub why : Text
  pub window : List ℕ
  pub dead : Option Text
  pub mounted_hash : Option Text
  pub restarted : List ℕ
  pub ended : List ℕ

unfoldable pub new : Link
new = record {
  conn = none;
  down_since = none;
  why = [];
  window = [];
  dead = none;
  mounted_hash = none;
  restarted = [];
  ended = [];
}

unfoldable pub install : ℕ → Link → Link
install c s = record s { conn = some c }

-- As `mount` leaves it.
unfoldable pub mounted : (conn : ℕ) (hash : Text) → Link
unfolding install new
mounted c hash = install c (record new { mounted_hash = some hash })

pub record Loss : Type 0 where
  pub conn : ℕ
  pub at : ℕ
  pub why : Text

unfoldable pub lost : Loss → Link → Link
lost l s = elim s.conn [
  | none ↦ s
  | some c ↦
      if c == l.conn then record s { conn = none; down_since = some l.at; why = l.why } else s
]

unfoldable pub lose : List Loss → Link → Link
unfolding lost
lose [] s = s
lose (l ∷ ls) s = lose ls (lost l s)

pub data Unavailable : Type 0 where
  dead_link : (why : Text) → Unavailable
  too_often : (why : Text) (restarts next : ℕ) → Unavailable
  later : (why : Text) (wait : ℕ) → Unavailable
  not_started : (why : Text) → Unavailable

-- How `connect_once` ends: a connection and its schema's hash, or why not. None: the future of
-- `ensure` is dropped; `seen` is the state at its first look, `slept` when its sleep ends.
pub record Turn : Type 0 where
  pub seen : Link
  pub alive_first : ℕ → Bool
  pub alive_then : ℕ → Bool
  pub now : ℕ
  pub asleep : List Loss
  pub slept : Option ℕ
  pub connecting : List Loss
  pub connected : Option (Result Text (ℕ × Text))
  pub failed_at : ℕ

abbrev pub Answer : Type 0
Answer = Link × Option (Result Unavailable ℕ)

-- Shared::live
unfoldable pub live : (ℕ → Bool) → Link → Result Text (Option ℕ)
live alive s = elim s.dead [
  | some why ↦ err why
  | none ↦ elim s.conn [ none ↦ ok none | some c ↦ ok (if alive c then some c else none) ]
]

abbrev pub unless_live : Result Text (Option ℕ) → Link → Answer → Answer
unless_live (err why) s next = (s, some (err (dead_link why)))
unless_live (ok (some c)) s next = (s, some (ok c))
unless_live (ok none) s next = next

unfoldable pub expire_window : (now : ℕ) → List ℕ → List ℕ
expire_window now [] = []
expire_window now (t ∷ ts) =
    let rest = expire_window now ts in if leb minute (now - t) then rest else t ∷ ts

unfoldable pub changed_schema : Option Text → Text → Bool
changed_schema none hash = Bool.false
changed_schema (some mounted) hash = if mounted == hash then Bool.false else Bool.true

unfoldable pub connect_end : Option (Result Text (ℕ × Text)) → (failed_at : ℕ) → Link → Answer
unfolding changed_schema
connect_end none at s = (s, none)
connect_end (some (err why)) at s =
    (record s { down_since = some at; why = why }, some (err (not_started why)))
connect_end (some (ok (c, hash))) at s =
    let why = codes "schema changed; restart the service" in
    if changed_schema s.mounted_hash hash
    then (record s { dead = some why; ended = c ∷ s.ended }, some (err (not_started why)))
    else (record s { conn = some c }, some (ok c))

-- The sleep ends, if its future is not dropped.
unfoldable pub restart : (slept : Option ℕ) → Turn → Link → Answer
unfolding connect_end lose
restart none t s = (lose t.asleep s, none)
restart (some at) t s =
    let up = lose t.asleep s in
    let started = record up {
      window = up.window ++ (at ∷ []);
      restarted = up.restarted ++ (at ∷ []);
    } in
    connect_end t.connected t.failed_at (lose t.connecting started)

-- What is left of a minute since the oldest restart of the window.
unfoldable pub next_restart : (now : ℕ) → List ℕ → ℕ
next_restart now [] = 0
next_restart now (t ∷ ts) = minute - (now - t)

abbrev or_now : ℕ → Option ℕ → ℕ
or_now now none = now
or_now now (some t) = t

unfoldable pub dial : Backoff → (timeout : ℕ) → Turn → Link → Answer
unfolding expire_window delay restart next_restart
dial b timeout t s =
    let kept = record s { window = expire_window t.now s.window } in
    let wait = or_now t.now s.down_since + delay b (length kept.window) - t.now in
    if leb b.per_minute (length kept.window)
    then (kept, some (err (too_often s.why (length kept.window) (next_restart t.now kept.window))))
    else if ltb timeout wait
    then (kept, some (err (later s.why wait)))
    else restart t.slept t kept

unfoldable pub ensure : Backoff → (timeout : ℕ) → Turn → Link → Answer
unfolding live dial
ensure b timeout t s =
    unless_live (live t.alive_first t.seen) s
      (unless_live (live t.alive_then s) s (dial b timeout t s))

pub data LinkMove : Type 0 where
  loses : Loss → LinkMove
  turns : Turn → LinkMove

unfoldable pub link_move : Backoff → (timeout : ℕ) → LinkMove → Link → Link
unfolding ensure lost
link_move b timeout (loses l) s = lost l s
link_move b timeout (turns t) s = (ensure b timeout t s).0

unfoldable pub link_moves : Backoff → (timeout : ℕ) → List LinkMove → Link → Link
unfolding link_move
link_moves b timeout [] s = s
link_moves b timeout (m ∷ ms) s = link_moves b timeout ms (link_move b timeout m s)
