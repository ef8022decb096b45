-- ===== src/Pipe/Tests.antt =====
-- A run of the pipe, and its laws at that run.
use plexus_core.Base.{ℕ, Text, codes, true, false, none, some, List, [], ◌∷◌, ◌≡◌, refl}
use plexus_core.Call.{DuplexRefusalCode}
use plexus_core.Input.Ledger.{Ledger, new, frame_done}
use plexus_core.Pipe.{
  done, other, credit, ack, input_closed, item, Event, batch, woken, output, run_duplex,
}
use plexus_core.Pipe.Order.{
  closes_once, closes_first, run_duplex-closes_once, run_duplex-closes_first,
}

abbrev as_str : DuplexRefusalCode → Text
as_str c = codes "code"

abbrev same : Ledger → Ledger
same l = l

abbrev consumed : Ledger → Ledger
consumed l = frame_done 0 4 10 (record l { held_items = 4; held_bytes = 10 })

-- A batch comes, the handler consumes it, the method says an item and is done.
abbrev events : List ((Ledger → Ledger) × Event ℕ)
events =
    (same, batch)
    ∷ (consumed, woken)
    ∷ (same, output (some (other 1)))
    ∷ (same, output (some (done 2)))
    ∷ (same, output none)
    ∷ []

run_duplex_runs :
    (run_duplex as_str events (new 4 100) 9).said
    ≡ item (done 2)
      ∷ input_closed (codes "method_ended") (some 0)
      ∷ item (other 1)
      ∷ credit 4
      ∷ ack 0
      ∷ credit 4
      ∷ []
unfolding run_duplex new frame_done
run_duplex_runs = refl

run_duplex-closes_once_example : closes_once (run_duplex as_str events (new 4 100) 9).said ≡ true
run_duplex-closes_once_example = run_duplex-closes_once as_str events (new 4 100) 9

new_open : (new 4 100).ended ≡ false
unfolding new
new_open = refl

consumed_open : (l : Ledger) → l.ended ≡ false → (consumed l).ended ≡ false
unfolding frame_done
consumed_open l h = h

run_duplex-closes_first_example : closes_first (run_duplex as_str events (new 4 100) 9).said ≡ true
run_duplex-closes_first_example =
    run_duplex-closes_first as_str events (new 4 100) 9 new_open
      ((λ l h. h), (consumed_open, ((λ l h. h), ((λ l h. h), ((λ l h. h), tt)))))
