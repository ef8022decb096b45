-- ===== src/Remote/Restarts.antt =====
-- How often a child is started again (`Shared` of src/plexus/remote_child/link.rs).
use plexus_core.Base.{
  ℕ, ◌≤◌, ◌<◌, ◌∷◌, Text, Option, none, some, List, [], ◌++◌, ◌==◌, nat_eq, leb, ltb, length, ◌≡◌,
  refl, ap, ◌∙◌, arith, if_cases,
}
use plexus_core.Errors.{Result, ok, err}
use plexus_core.Remote.Quiet.{option_cases}
use plexus_core.Remote.Link.{
  Backoff, Link, Loss, lost, lose, mounted, Turn, Answer, live, unless_live, expire_window,
  changed_schema, connect_end, restart, dial, ensure, LinkMove, loses, turns, link_move, link_moves,
}
use plexus_core.Remote.Window.{
  recent, Bounded, Bounded-later, Bounded-recent, Bounded-expire_window, Bounded-push,
}

-- The window and the restarts of a state.
abbrev KeepsTo : Backoff → (clock : ℕ) → Link → Type 0
KeepsTo b clock s = Bounded b clock s.window s.restarted

lost-KeepsTo :
    (b : Backoff) (clock : ℕ) (l : Loss) (s : Link) → KeepsTo b clock s → KeepsTo b clock (lost l s)
unfolding lost
lost-KeepsTo b clock l s h =
    option_cases (KeepsTo b clock) s.conn h
      (λ c. if_cases (KeepsTo b clock) (c == l.conn) (λ _. h) (λ _. h))

lose-KeepsTo :
    (b : Backoff) (clock : ℕ) (ls : List Loss) (s : Link)
    → KeepsTo b clock s
    → KeepsTo b clock (lose ls s)
unfolding lose
lose-KeepsTo b clock [] s h = h
lose-KeepsTo b clock (l ∷ ls) s h = lose-KeepsTo b clock ls (lost l s) (lost-KeepsTo b clock l s h)

abbrev Answered : Backoff → (clock : ℕ) → Answer → Type 0
Answered b clock a = KeepsTo b clock a.0

connect_end-Answered :
    (b : Backoff) (clock : ℕ) (c : Option (Result Text (ℕ × Text))) (failed_at : ℕ) (s : Link)
    → KeepsTo b clock s
    → Answered b clock (connect_end c failed_at s)
unfolding connect_end
connect_end-Answered b clock none failed_at s h = h
connect_end-Answered b clock (some (err why)) failed_at s h = h
connect_end-Answered b clock (some (ok (c, hash))) failed_at s h =
    if_cases (Answered b clock) (changed_schema s.mounted_hash hash) (λ _. h) (λ _. h)

-- When a turn is over.
abbrev end_of : (now : ℕ) → Option ℕ → ℕ
end_of now none = now
end_of now (some at) = at

lost-window : (l : Loss) (s : Link) → (lost l s).window ≡ s.window
unfolding lost
lost-window l s =
    option_cases (λ (t : Link). t.window ≡ s.window) s.conn refl
      (λ c. if_cases (λ (t : Link). t.window ≡ s.window) (c == l.conn) (λ _. refl) (λ _. refl))

lose-window : (ls : List Loss) (s : Link) → (lose ls s).window ≡ s.window
unfolding lose
lose-window [] s = refl
lose-window (l ∷ ls) s = lose-window ls (lost l s) ∙ lost-window l s

restart-Answered :
    (b : Backoff) (now : ℕ) (slept : Option ℕ) (t : Turn) (s : Link)
    → now ≤ end_of now slept
    → length s.window < b.per_minute
    → KeepsTo b now s
    → Answered b (end_of now slept) (restart slept t s)
unfolding restart
restart-Answered b now none t s h fewer k = lose-KeepsTo b now t.asleep s k
restart-Answered b now (some at) t s h fewer k =
    let up = lose t.asleep s in
    let started : Link = record up {
      window = up.window ++ (at ∷ []);
      restarted = up.restarted ++ (at ∷ []);
    } in
    let same : length up.window ≡ length s.window = ap length (lose-window t.asleep s) in
    connect_end-Answered b at t.connected t.failed_at (lose t.connecting started) (
      lose-KeepsTo b at t.connecting started (
        Bounded-push b now at up.window up.restarted h (omega (arith, same, fewer))
          (lose-KeepsTo b now t.asleep s k)))

dial-Answered :
    (b : Backoff) (timeout : ℕ) (t : Turn) (s : Link)
    → t.now ≤ end_of t.now t.slept
    → KeepsTo b t.now s
    → Answered b (end_of t.now t.slept) (dial b timeout t s)
unfolding dial
dial-Answered b timeout t s h k =
    let kept : Link = record s { window = expire_window t.now s.window } in
    let here : KeepsTo b t.now kept = Bounded-expire_window b t.now s.window s.restarted k in
    let there : KeepsTo b (end_of t.now t.slept) kept =
      Bounded-later b t.now (end_of t.now t.slept) kept.window kept.restarted h here in
    if_cases (Answered b (end_of t.now t.slept)) (leb b.per_minute (length kept.window))
      (λ _. there)
      (λ fewer.
        if_cases (Answered b (end_of t.now t.slept)) (ltb timeout _) (λ _. there)
          (λ _. restart-Answered b t.now t.slept t kept h (ground (arith, fewer)) here))

unless_live-Answered :
    (b : Backoff) (clock : ℕ) (r : Result Text (Option ℕ)) (s : Link) (next : Answer)
    → KeepsTo b clock s
    → Answered b clock next
    → Answered b clock (unless_live r s next)
unless_live-Answered b clock (err why) s next h k = h
unless_live-Answered b clock (ok (some c)) s next h k = h
unless_live-Answered b clock (ok none) s next h k = k

ensure-Answered :
    (b : Backoff) (timeout : ℕ) (t : Turn) (s : Link)
    → t.now ≤ end_of t.now t.slept
    → KeepsTo b t.now s
    → Answered b (end_of t.now t.slept) (ensure b timeout t s)
unfolding ensure
ensure-Answered b timeout t s h k =
    let clock = end_of t.now t.slept in
    let later : KeepsTo b clock s = Bounded-later b t.now clock s.window s.restarted h k in
    unless_live-Answered b clock (live t.alive_first t.seen) s _ later (
      unless_live-Answered b clock (live t.alive_then s) s _ later
        (dial-Answered b timeout t s h k))

-- The turns, in the order of the lock that each holds, are in time, and `at` is after them.
abbrev pub Timely : (clock : ℕ) → List LinkMove → (at : ℕ) → Type 0
Timely clock [] at = clock ≤ at
Timely clock (loses l ∷ ms) at = Timely clock ms at
Timely clock (turns t ∷ ms) at =
    (clock ≤ t.now) × (t.now ≤ end_of t.now t.slept) × Timely (end_of t.now t.slept) ms at

link_moves-KeepsTo :
    (b : Backoff) (timeout clock at : ℕ) (ms : List LinkMove) (s : Link)
    → Timely clock ms at
    → KeepsTo b clock s
    → KeepsTo b at (link_moves b timeout ms s)
unfolding link_moves link_move
link_moves-KeepsTo b timeout clock at [] s h k = Bounded-later b clock at s.window s.restarted h k
link_moves-KeepsTo b timeout clock at (loses l ∷ ms) s h k =
    link_moves-KeepsTo b timeout clock at ms (lost l s) h (lost-KeepsTo b clock l s k)
link_moves-KeepsTo b timeout clock at (turns t ∷ ms) s (h, ht, hs) k =
    link_moves-KeepsTo b timeout (end_of t.now t.slept) at ms (ensure b timeout t s).0 hs
      (ensure-Answered b timeout t s ht (Bounded-later b clock t.now s.window s.restarted h k))

-- However often a child's connections are lost and its callers ask for one, and however each start
-- of it ends, as long as the turns at the dial's lock are in time: a child that was mounted is never
-- started again more than `per_minute` times within the minute before any moment after them.
pub link_moves-recent :
    (b : Backoff) (timeout clock at : ℕ) (ms : List LinkMove) (c : ℕ) (hash : Text)
    → Timely clock ms at
    → recent at (link_moves b timeout ms (mounted c hash)).restarted ≤ b.per_minute
unfolding mounted
link_moves-recent b timeout clock at ms c hash h =
    Bounded-recent b at _ _
      (link_moves-KeepsTo b timeout clock at ms (mounted c hash) h ([], refl, tt, omega arith))
