-- ===== src/View/TellsMethods.antt =====
-- The methods shown are those to be told, and the hashes are over them.
use plexus_core.Base.{
  Text, codes, Bool, true, false, not, ◌&&◌, ◌||◌, Option, none, some, List, [], ◌∷◌, ◌++◌, map,
  any, if◌then◌else◌, ◌==◌, text_eq, ◌≡◌, refl, sym, ap, ap₂, ◌∙◌, arith, Bool-cases, Option-cases,
  inl, inr,
}
use plexus_core.Base.Texts.{strip_prefix}
use plexus_core.View.Schema.{
  MethodSchema, PluginSchema, ChildSummary, ViewKind, anonymous, caller_view, is_rpc,
  is_static_child, is_auto_schema, grant_or, is_none,
}
use plexus_core.View.Described.{
  Below, Asker, keep, keep_for, keep_held, any_kept, grants_below, below_of, is_below, reached_in,
  reaches_below,
}
use plexus_core.View.Shape.{Digest, rehash, children_of, kind_of, option_map}
use plexus_core.View.Decide.{Held, decide_method, by_reach, or_empty, not_held, hash_prefix}
use plexus_core.View.Meaning.{methods_shown}
use plexus_core.View.Told.{
  allow, is_at, kept_names, kept_child, kind_for, told_prefix, children_in, children_digest, hashed,
  held_on_nothing, allow_scopes, allowed, is_allowed, usable, told_method, told_methods,
}

is_below-is_at : (path : Text) (b : Below) → is_below path b ≡ is_at path b.namespace
unfolding is_below
is_below-is_at path b = elim (Option-cases (strip_prefix (path ++ codes ".") b.namespace)) [
  | inl missed ↦ rw (missed, is_at) (ground arith)
  | inr (rest, hit) ↦ rw (hit, is_at) (ground arith)
]

children_of-kept_names :
    (names : List Text) (cs : List ChildSummary) → children_of names cs ≡ kept_names names cs
unfolding children_of
children_of-kept_names names [] = refl
children_of-kept_names names (c ∷ cs) = elim (Bool-cases (any (λ n. n == c.namespace) names)) [
  | inl there ↦ rw there (ap (λ (l : List ChildSummary). c ∷ l) (children_of-kept_names names cs))
  | inr missing ↦ rw missing (children_of-kept_names names cs)
]

pub children-kept_child :
    (names : List Text) (o : Option (List ChildSummary))
    → option_map (children_of names) o ≡ kept_child names o
children-kept_child names none = refl
children-kept_child names (some cs) =
    ap (λ (l : List ChildSummary). some l) (children_of-kept_names names cs)

by_reach-allow :
    (child known reached : Bool) (own : Option Held)
    → (if child then by_reach (if known then some reached else none) own else own)
      ≡ (if child && known then allow reached else own)
by_reach-allow true true true own = refl
by_reach-allow true true false own = refl
by_reach-allow true false reached own = refl
by_reach-allow false known reached own = refl

pub hash_prefix-told_prefix : (kind : ViewKind) → hash_prefix kind ≡ told_prefix kind
hash_prefix-told_prefix anonymous = refl
hash_prefix-told_prefix caller_view = refl

pub or_empty-children_in : (o : Option (List ChildSummary)) → or_empty o ≡ children_in o
or_empty-children_in none = refl
or_empty-children_in (some cs) = refl

pub not_held-map : {R : Type 0} (ms : List (MethodSchema R)) → not_held ms ≡ map held_on_nothing ms
unfolding not_held
not_held-map [] = refl
not_held-map {R} (m ∷ ms) =
    ap (λ (l : List (MethodSchema R)). held_on_nothing m ∷ l) (not_held-map ms)

pub kind_of-kind_for : {F : Type 0} (o : Option F) → kind_of o ≡ kind_for o
kind_of-kind_for none = refl
kind_of-kind_for (some f) = refl

module _ {R E : Type 0} (digest : Digest R E) where
  option_map-children_digest :
      (o : Option (List ChildSummary)) → option_map digest.of_children o ≡ children_digest digest o
  option_map-children_digest none = refl
  option_map-children_digest (some cs) = refl

  pub rehash-hashed : (s : PluginSchema R E) → rehash digest none s ≡ hashed digest [] s
  unfolding rehash
  rehash-hashed s = rw (option_map-children_digest s.children) refl

  pub rehash-hashed_prefix :
      (p : Text) (s : PluginSchema R E) → rehash digest (some p) s ≡ hashed digest p s
  unfolding rehash
  rehash-hashed_prefix p s = rw (option_map-children_digest s.children) refl

module _ {F : Type 0} (asker : Asker F) where
  not_none-is_allowed : (o : Option Held) → not (is_none o) ≡ is_allowed asker o
  not_none-is_allowed none = refl
  not_none-is_allowed (some held) = refl

  keep_held-allow_scopes :
      (ss : List Text) (everyone : Bool) → keep_held ss everyone ≡ allow_scopes asker ss everyone
  keep_held-allow_scopes [] true = refl
  keep_held-allow_scopes [] false = refl
  keep_held-allow_scopes (s ∷ ss) everyone = refl

  keep_for-allowed :
      (o : Option F) (grant : Text) (public : Bool)
      → keep_for asker o grant public ≡ allowed asker o grant public
  keep_for-allowed none grant true = refl
  keep_for-allowed none grant false = refl
  keep_for-allowed (some f) grant public = keep_held-allow_scopes (asker.held_on_by f grant) _

  keep-allowed :
      (grant : Text) (public : Bool)
      → keep asker grant public ≡ allowed asker asker.who grant public
  unfolding keep
  keep-allowed grant public = keep_for-allowed asker.who grant public

  not_none-keep :
      (grant : Text) (public : Bool)
      → not (is_none (keep asker grant public))
        ≡ is_allowed asker (allowed asker asker.who grant public)
  not_none-keep grant public =
      ap (λ (o : Option Held). not (is_none o)) (keep-allowed grant public)
      ∙ not_none-is_allowed (allowed asker asker.who grant public)

  module _ {R : Type 0} where
    any_kept-usable :
        {E : Type 0} (children : List (PluginSchema R E)) (ns : Text) (ms : List (MethodSchema R))
        → any_kept asker (grants_below ns ms) ≡ any (usable asker children ns) ms
    unfolding any_kept grants_below
    any_kept-usable children ns [] = refl
    any_kept-usable children ns (m ∷ ms) =
        let same = any_kept-usable children ns ms in
        let here = not_none-keep (grant_or m ns) m.public in
        elim (Bool-cases (is_rpc m.role)) [
          | inr other ↦ rw other same
          | inl called ↦ elim (Bool-cases (is_auto_schema m)) [
            | inl auto ↦ rw (auto, called) same
            | inr plain ↦ rw (plain, called) (ap₂ (λ (a b : Bool). a || b) here same)
          ]
        ]

  module _ {R E : Type 0} (children : List (PluginSchema R E)) where
    abbrev has_usable : (path : Text) → PluginSchema R E → Bool
    has_usable path s = is_at path s.namespace && any (usable asker children s.namespace) s.methods

    reached_in-any :
        (path : Text) (ss : List (PluginSchema R E))
        → reached_in asker path (map below_of ss) ≡ any (has_usable path) ss
    unfolding reached_in below_of
    reached_in-any path [] = refl
    reached_in-any path (s ∷ ss) =
        rw
          (
            is_below-is_at path (below_of s),
            any_kept-usable children s.namespace s.methods,
            reached_in-any path ss,
          )
          refl

    any-is_at :
        (path : Text) (ss : List (PluginSchema R E))
        → any (is_below path) (map below_of ss) ≡ any (λ s. is_at path s.namespace) ss
    unfolding below_of
    any-is_at path [] = refl
    any-is_at path (s ∷ ss) = rw (is_below-is_at path (below_of s), any-is_at path ss) refl

    decide_method-told_method :
        (ns : Text) (m : MethodSchema R)
        → decide_method asker (map below_of children) ns m ≡ told_method asker children ns m
    unfolding decide_method reaches_below
    decide_method-told_method ns m =
        rw
          (
            sym (any-is_at (ns ++ (codes "." ++ m.name)) children),
            sym (reached_in-any (ns ++ (codes "." ++ m.name)) children),
            sym (keep_for-allowed asker.who (grant_or m ns) m.public),
          )
          (by_reach-allow (is_static_child m.role) _ _ _)

    pub methods_shown-told_methods :
        (ns : Text) (ms : List (MethodSchema R))
        → methods_shown asker (map below_of children) ns ms ≡ told_methods asker children ns ms
    unfolding methods_shown
    methods_shown-told_methods ns [] = refl
    methods_shown-told_methods ns (m ∷ ms) =
        rw (decide_method-told_method ns m, methods_shown-told_methods ns ms) refl
