-- ===== src/CallContext/Tests.antt =====
-- Contexts at a concrete service, whose principals are texts that are not empty.
use plexus_core.Base.{
  ℕ, Text, codes, true, false, arith, Option, none, some, List, [], ◌∷◌, ◌≡◌, refl, ◌==◌, text_eq,
  nat_eq,
}
use plexus_core.Base.Assoc.{lookup, insert}
use plexus_core.Errors.{ok, err}
use plexus_core.CallContext.{
  Hop, not_verified, Identities, CallContext, Slots, is_unreadable, verified, keep_verified,
  for_child,
}
use plexus_core.CallContext.Chain.{Move, calls, answers, run, RunsAs, reach_in, for_child-within}

abbrev parse : Text → Option Text
parse [] = none
parse (c ∷ s) = some (c ∷ s)

-- A reach is the scopes that it covers.
abbrev ids : Identities Text Text Text (List Text)
ids = record {
  is_authenticated = λ a. true;
  parse = parse;
  for_hop = λ p c q. p;
  parse_scope = λ s. s;
  is_everywhere = λ s. s == codes "*";
  same_scope = λ s t. s == t;
  nowhere = [];
  ceiling_reach = λ a g scopes. scopes;
}

abbrev context : CallContext Text (List Text)
context = record {
  auth = some (codes "alice");
  reach = some (codes "alpha" ∷ []);
  deferred = none;
  hop = none;
  slot = 0;
}

abbrev slots : Slots ℕ
slots = record { next = 1; held = [] }

abbrev hop : Hop
hop = record {
  principal = codes "key:service";
  for_whom = [] ∷ [];
  limit = some (record { grant = codes "forge.repos"; held_on = codes "*" ∷ [] });
  call = codes "c1";
}

kept_runs : keep_verified 5 context slots ≡ ok (record { next = 1; held = (0, 5) ∷ [] })
unfolding keep_verified lookup insert
kept_runs = refl

-- A call is verified, and two children are called, one below the other: the second keeps nothing.
abbrev below : List (Move Text ℕ)
below = answers 5 ∷ calls (some (codes "bob")) true ∷ answers 6 ∷ []

abbrev grandchild : CallContext Text (List Text) × Slots ℕ
grandchild =
    for_child ids (some (codes "eve")) false (run ids below context slots).0
      (run ids below context slots).1

for_child-within_example :
    RunsAs ids (some (codes "eve")) grandchild.0.auth
    × (reach_in ids grandchild.0 ≡ [])
    × (grandchild.0.hop ≡ none)
    × (verified grandchild.0 grandchild.1 ≡ err not_verified)
for_child-within_example =
    for_child-within ids below (some (codes "eve")) false context slots tt (omega arith)

hop_unreadable : is_unreadable ids hop ≡ true
unfolding is_unreadable
hop_unreadable = refl
