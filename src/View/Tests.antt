-- ===== src/View/Tests.antt =====
-- Views of a small service.
use plexus_core.Base.{
  ℕ, Text, codes, Bool, true, false, ◌||◌, Option, none, some, List, [], ◌∷◌, map, if◌then◌else◌,
  ◌==◌, text_eq, nat_eq, ◌≡◌, ◌≤◌, refl, All, arith,
}
use plexus_core.Base.Assoc.{lookup, insert, remove}
use plexus_core.Base.Texts.{strip_prefix}
use plexus_core.ContentHash.Canonical.{le_text}
use plexus_core.Json.{null, get, get_member}
use plexus_core.View.Schema.{
  MethodRole, rpc, static_child, one, MethodSchema, ChildSummary, PluginSchema, is_auto_schema,
  grant_or,
}
use plexus_core.View.Described.{
  Described, Asker, grants_below, below_of, hollow_of, new, keep, is_below, any_kept, reached_in,
  reaches_below, nested,
}
use plexus_core.View.Shape.{
  Digest, Shaped, each, btree_insert, shown, children_of, rehash, kept_schema,
}
use plexus_core.View.Decide.{
  decide_method, scan, activation_view, collect, kept_children, not_held, service_of, shape,
}
use plexus_core.View.Reading.{
  hashes_of, grants_of_public, find_method, view_schema_of, public_in, view_public_methods,
  schemas_of, view, schema_of, find_kept, method_of, by_namespace, whole, shows,
}
use plexus_core.View.Agreement.{option_bind, reads-view}
use plexus_core.View.Meaning.{
  methods_shown, entry_shown, activation_shown, all_shown, children_listed, view_meant,
}
use plexus_core.View.Refines.{shape-view_meant}
use plexus_core.View.Door.{AllEntitled, view-Entitled}
use plexus_core.View.Cache.{
  Event, moves, shapes, Answer, empty, schema_moved, reset, described, shaped, base_at, views_at,
  run,
}
use plexus_core.View.Cache.Runs.{IsCurrent, run-IsCurrent}
use plexus_core.View.Shells.{
  PlexusStreamItem, item_data, item_done, shell_data, shell_done, context, carried, hash_of,
  hash_now, shell_of, answer, with_content, stamped, keep_shell,
}
use plexus_core.View.Told.{told_view}
use plexus_core.View.Tells.{shape-told_view}

abbrev method : Text → MethodRole → Bool → MethodSchema (Unit {0})
method name role public = record {
  name = name;
  hash = codes "h";
  params = none;
  returns = null;
  error = none;
  progress = none;
  cardinality = one;
  role = role;
  public = public;
  grant = none;
  held_on = none;
  rest = tt;
}

abbrev plugin :
    Text
    → List (MethodSchema (Unit {0}))
    → Option (List ChildSummary)
    → PluginSchema (Unit {0}) (Unit {0})
plugin ns methods children = record {
  namespace = ns;
  self_hash = [];
  children_hash = none;
  hash = codes "old";
  methods = methods;
  children = children;
  roles = [];
  view = none;
  rest = tt;
}

abbrev entry : MethodSchema (Unit {0})
entry = record (method (codes "schema") rpc false) { hash = codes "auto_schema" }

abbrev tickets : PluginSchema (Unit {0}) (Unit {0})
tickets =
    plugin (codes "tickets")
      (entry
        ∷ method (codes "read") rpc false
        ∷ method (codes "sub") static_child false
        ∷ method (codes "drop") rpc false
        ∷ [])
      none

abbrev auth : PluginSchema (Unit {0}) (Unit {0})
auth = plugin (codes "auth") (method (codes "login") rpc true ∷ []) none

abbrev sub : PluginSchema (Unit {0}) (Unit {0})
sub = plugin (codes "tickets.sub") (method (codes "link") rpc false ∷ []) none

abbrev hub : PluginSchema (Unit {0}) (Unit {0})
hub = plugin (codes "hub") [] (
    some (
      record { namespace = codes "tickets"; description = []; hash = codes "old" }
      ∷ record { namespace = codes "auth"; description = []; hash = codes "old" }
      ∷ []))

abbrev base : Described (Unit {0}) (Unit {0})
base = new hub (tickets ∷ auth ∷ []) (sub ∷ [])

-- A digest that counts nothing.
abbrev digest : Digest (Unit {0}) (Unit {0})
digest = record { of_self = λ ns ms kind. ns; of_children = λ cs. []; of_all = λ s c schema. s }

-- Who may read tickets, and follow the links below.
abbrev reader : Asker ℕ
reader = record {
  held_on_by = λ f g.
      if g == codes "tickets.read" || g == codes "tickets.sub.link" then codes "all" ∷ [] else [];
  who = some 1;
  signed_in_grants = [];
}

abbrev stranger : Asker ℕ
stranger = record reader { who = none }

program : Unit {0}
unfolding lookup insert remove strip_prefix le_text get get_member is_auto_schema grant_or
    grants_below below_of hollow_of new keep is_below any_kept reached_in reaches_below nested each
    btree_insert shown children_of rehash kept_schema decide_method scan activation_view collect
    kept_children not_held service_of shape hashes_of grants_of_public find_method view_schema_of
    public_in view_public_methods schemas_of view schema_of find_kept method_of by_namespace whole
    shows methods_shown entry_shown activation_shown all_shown children_listed view_meant
    schema_moved reset described shaped base_at views_at run hash_of hash_now shell_of answer
    with_content stamped keep_shell empty
program = tt

abbrev names_shown : PluginSchema (Unit {0}) (Unit {0}) → List Text
names_shown s = map (λ m. m.name) s.methods

reader_sees :
    map (λ e. names_shown e.1) (view_meant reader digest base).activations
    ≡ (codes "login" ∷ []) ∷ (codes "read" ∷ codes "sub" ∷ codes "schema" ∷ []) ∷ []
unfolding program
reader_sees = refl

stranger_sees :
    map (λ e. names_shown e.1) (view_meant stranger digest base).activations
    ≡ (codes "login" ∷ []) ∷ []
unfolding program
stranger_sees = refl

stranger_hash : (view_meant stranger digest base).hash ≡ codes "v-anon-hub"
unfolding program
stranger_hash = refl

shape-told_view_example :
    (v : Shaped (Unit {0}) (Unit {0})) × (shape digest reader base ≡ some v)
    × (view base v ≡ some (told_view reader (sub ∷ []) digest hub (tickets ∷ auth ∷ [])))
shape-told_view_example = shape-told_view reader digest hub (tickets ∷ auth ∷ []) (sub ∷ [])

-- The reader's view, as it is kept.
abbrev kept_view : Shaped (Unit {0}) (Unit {0})
kept_view = (shape-view_meant reader digest hub (tickets ∷ auth ∷ []) (sub ∷ [])).0

view-Entitled_example :
    All (AllEntitled reader (sub ∷ [])) (view_meant reader digest base).activations
view-Entitled_example =
    view-Entitled reader digest hub (tickets ∷ auth ∷ []) (sub ∷ []) kept_view
      (view_meant reader digest base)
      (shape-view_meant reader digest hub (tickets ∷ auth ∷ []) (sub ∷ [])).1
      (shape-view_meant reader digest hub (tickets ∷ auth ∷ []) (sub ∷ [])).2

reads-view_example :
    (schema_of base kept_view (codes "tickets")
      ≡ some (view_schema_of (view_meant reader digest base) (codes "tickets")))
    × (method_of base kept_view (codes "tickets") (codes "read")
        ≡ some (
            option_bind
              (view_schema_of (view_meant reader digest base) (codes "tickets"))
              (λ s. find_method (codes "read") s.methods)))
reads-view_example =
    reads-view base kept_view (view_meant reader digest base) (codes "tickets") (codes "read")
      (shape-view_meant reader digest hub (tickets ∷ auth ∷ []) (sub ∷ [])).2

-- A description is the generation that it was built at, and a view that of the grants.
abbrev asks : List (Event ℕ ℕ ℕ)
asks =
    shapes 0 0 7 0 (λ b. 0)
    ∷ moves
    ∷ shapes 1 1 7 1 (λ b. 1)
    ∷ shapes 1 1 7 1 (λ b. 1)
    ∷ shapes 0 2 8 1 (λ b. 2)
    ∷ shapes 1 2 7 1 (λ b. 2)
    ∷ []

asked :
    map {B = ℕ × ℕ} (λ (a : Answer ℕ ℕ ℕ). (a.base, a.view)) (run asks empty)
    ≡ (0, 0) ∷ (1, 1) ∷ (1, 1) ∷ (1, 2) ∷ (1, 2) ∷ []
unfolding program
asked = refl

run-IsCurrent_example : All (IsCurrent (λ n b. n ≤ b) (λ n g w b v. g ≤ v)) (run asks empty)
run-IsCurrent_example =
    run-IsCurrent (λ n b. n ≤ b) (λ n g w b v. g ≤ v) asks
      (
        (omega arith, λ b h. omega arith),
        (
          tt,
          (
            (omega arith, λ b h. omega arith),
            (
              (omega arith, λ b h. omega arith),
              ((omega arith, λ b h. omega arith), ((omega arith, λ b h. omega arith), tt)),
            ),
          ),
        ),
      )

abbrev routed : List (PlexusStreamItem ℕ)
routed =
    item_data (record { provenance = []; plexus_hash = codes "me"; timestamp = 3 }) (codes "t") 0
    ∷ item_done (record { provenance = []; plexus_hash = codes "it"; timestamp = 4 })
    ∷ []

answered_again :
    answer
      (codes "me")
      9
      5
      (shell_data [] context (codes "t") ∷ shell_done [] (carried (codes "it")) ∷ [])
    ≡ stamped 9 (with_content 5 routed)
unfolding program
answered_again = refl

enveloped :
    shell_of (codes "me") routed
    ≡ some (shell_data [] context (codes "t") ∷ shell_done [] (carried (codes "it")) ∷ [])
unfolding program
enveloped = refl
