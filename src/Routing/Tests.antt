-- ===== src/Routing/Tests.antt =====
-- A router `hub` with one child `echo`, which answers as whom it is called.
use plexus_core.Base.{
  ℕ, Text, codes, true, false, Option, none, some, [], ◌∷◌, ◌++◌, ◌≡◌, refl, ◌==◌, nat_eq, text_eq,
  if◌then◌else◌,
}
use plexus_core.Errors.{PlexusError, ok, err}
use plexus_core.Routing.{ForwardDerivation, Forwarding, ChildRouter, Router, route_to_child}
use plexus_core.Routing.Laws.{Answers, route_to_child-Answers}
use plexus_core.Routing.Plugins.{PluginRegistry, empty, register, register_all}

abbrev keep_user : ForwardDerivation
keep_user = record {
  keep_verified_user = true;
  keep_roles = false;
  keep_capabilities = false;
  keep_metadata = false;
}

abbrev forwarding : Forwarding Text Text
forwarding = record {
  identity_only = λ _ _. keep_user;
  anonymous = [];
  callee_context = λ a d caller. codes "for " ++ a;
  path_error = λ _. none;
  for_child = λ x a keeps. codes "in " ++ x;
}

abbrev echo : ChildRouter Text Text ℕ (Text × Option Text)
echo ctx method params auth = ok (method, auth)

abbrev hub : Router Text Text ℕ (Text × Option Text)
hub = record {
  namespace = codes "hub";
  principal = codes "hub";
  get_child = λ name. if name == codes "echo" then some echo else none;
  forward_policy_for = λ _. none;
}

routed :
    route_to_child forwarding hub (codes "echo.say.it") 1 (some (codes "ada")) none
    ≡ ok (codes "say.it", some (codes "for ada"))
unfolding route_to_child
routed = refl

no_child :
    route_to_child forwarding hub (codes "bash.run") 1 none none
    ≡ err (PlexusError.activation_not_found (codes "bash"))
unfolding route_to_child
no_child = refl

no_dot :
    route_to_child forwarding hub (codes "run") 1 none none
    ≡ err (PlexusError.method_not_found (codes "hub") (codes "run"))
unfolding route_to_child
no_dot = refl

-- In a call's context, for a child with a policy of its own.
route_to_child-Answers_example :
    Answers forwarding hub (codes "echo.say") 1 (some (codes "ada")) (some (codes "call")) (
      route_to_child forwarding hub (codes "echo.say") 1 (some (codes "ada")) (some (codes "call")))
route_to_child-Answers_example =
    route_to_child-Answers forwarding hub (codes "echo.say") 1 (some (codes "ada"))
      (some (codes "call"))

-- One that tells its caller's own call from its own: no child is handed the former.
abbrev other_echo : ChildRouter Text Text ℕ (Text × Option Text)
other_echo none method params auth = ok (method, auth)
other_echo (some []) method params auth = ok (codes "seen", none)
other_echo (some (x ∷ xs)) method params auth =
    if x == b'c' then ok (codes "seen", none) else ok (method, auth)

abbrev with_other : Text → Option (ChildRouter Text Text ℕ (Text × Option Text))
with_other name = if name == codes "echo" then some other_echo else none

abbrev registered : PluginRegistry
registered =
    register 2 (codes "bash") (codes "bash")
      (register_all (record { id = 1; path = codes "echo"; plugin_type = codes "echo" } ∷ []) empty)
