-- ===== src/Remote/Quiet.antt =====
-- Steps of a connection that open no call and tell no one how an open ended.
use plexus_core.Base.{
  ℕ, Text, codes, not, Option, none, some, [], if◌then◌else◌, ◌==◌, nat_eq, text_eq, ◌≡◌, refl, ◌∙◌,
  if_cases,
}
use plexus_core.Base.Assoc.{lookup, remove}
use plexus_core.Json.{Value}
use plexus_core.Remote.Routes.{item, contains, expire_tails, Handed, Conn, Notif, Msg, Reading}
use plexus_core.Remote.Conn.{ask_unsub, forget, unsubscribe}
use plexus_core.Remote.Message.{
  or_peer, is_end, hand, refuse_request, unasked_item, route, closed, opened_late, on_answer,
  on_notification, on_msg, on_message,
}

pub option_cases :
    {A B : Type 0} (P : A → Type 0) (o : Option B) {x : A} {f : B → A}
    → P x
    → ((b : B) → P (f b))
    → P (elim o [ none ↦ x | some b ↦ f b ])
option_cases P none h k = h
option_cases P (some b) h k = k b

pub option_none :
    {A B : Type 0} (P : A → Type 0) (o : Option B) {x : A} (f : B → A)
    → o ≡ none
    → P x
    → P (elim o [ none ↦ x | some b ↦ f b ])
option_none P none f e h = h
option_none P (some b) f e h = cc e

module _ {J : Type 0} where
  -- A step that opens nothing and tells no one how an open ended.
  abbrev pub Quiet : Conn J → Conn J → Type 0
  Quiet c d =
      (d.alive ≡ c.alive)
      × (d.routes.pending ≡ c.routes.pending)
      × (d.replies ≡ c.replies)
      × (d.late ≡ c.late)
      × (c.routes.subs ≡ [] → d.routes.subs ≡ [])

  Quiet-trans : (c d e : Conn J) → Quiet c d → Quiet d e → Quiet c e
  Quiet-trans c d e (a, p, r, l, s) (a', p', r', l', s') =
      (a' ∙ a, p' ∙ p, r' ∙ r, l' ∙ l, λ h. s' (s h))

  pub Quiet-refl : (c : Conn J) → Quiet c c
  Quiet-refl c = (refl, refl, refl, refl, λ h. h)

  forget-Quiet : (key : Text) (c : Conn J) → Quiet c (forget key c)
  unfolding forget remove
  forget-Quiet key c = (refl, refl, refl, refl, λ h. rw h refl)

  ask_unsub-Quiet : (key : Text) (c : Conn J) → Quiet c (ask_unsub key c)
  unfolding ask_unsub
  ask_unsub-Quiet key c = (refl, refl, refl, refl, λ h. h)

  pub unsubscribe-Quiet : (key : Text) (c : Conn J) → Quiet c (unsubscribe key c)
  unfolding unsubscribe
  unsubscribe-Quiet key c = option_cases (Quiet c) (lookup key c.routes.subs) (Quiet-refl c) (λ s.
      if_cases (Quiet c) (not c.alive) (λ _. forget-Quiet key c)
        (λ _.
          Quiet-trans c (forget key c) (ask_unsub key (forget key c)) (forget-Quiet key c)
            (ask_unsub-Quiet key (forget key c))))

  unasked_item-Quiet : (now : ℕ) (key : Text) (c : Conn J) → Quiet c (unasked_item now key c)
  unfolding unasked_item expire_tails
  unasked_item-Quiet now key c =
      if_cases (Quiet c) (contains key (expire_tails now c.routes).closing_subs)
        (λ _. (refl, refl, refl, refl, λ h. h)) (λ _. (refl, refl, refl, refl, λ h. h))

  hand-Quiet : (tx : ℕ) (h : Handed J) (c d : Conn J) → Quiet c d → Quiet c (hand tx h d)
  hand-Quiet tx h c d q = q

  route-Quiet :
      (read : Reading J) (now : ℕ) (key raw : Text) (c : Conn J)
      → Quiet c (route read now key raw c)
  unfolding route
  route-Quiet read now key raw c =
      option_cases (Quiet c) (lookup key c.routes.subs) (unasked_item-Quiet now key c) (λ s.
        option_cases (Quiet c) (or_peer (read.stream_item raw) (read.peer_item raw s.method))
          (option_cases (Quiet c) (read.kind raw) (Quiet-refl c) (λ kind.
            if_cases (Quiet c) (kind == codes "error")
              (λ _.
                Quiet-trans c (unsubscribe key c) (forget key (unsubscribe key c))
                  (unsubscribe-Quiet key c) (forget-Quiet key (unsubscribe key c)))
              (λ _. Quiet-refl c)))
          (λ i.
            hand-Quiet s.tx (item i) c (if is_end i then forget key c else c)
              (if_cases (Quiet c) (is_end i) (λ _. forget-Quiet key c) (λ _. Quiet-refl c))))

  closed-Quiet : (now id : ℕ) (key : Text) (c : Conn J) → Quiet c (closed now id key c)
  unfolding closed expire_tails
  closed-Quiet now id key c = (refl, refl, refl, refl, λ h. h)

  opened_late-Quiet :
      (read : Reading J) (id : ℕ) (result : Option Text) (c : Conn J)
      → Quiet c (opened_late read id result c)
  unfolding opened_late ask_unsub
  opened_late-Quiet read id none c = (refl, refl, refl, refl, λ h. h)
  opened_late-Quiet read id (some sid) c =
      option_cases (Quiet c) (read.value sid) (refl, refl, refl, refl, λ h. h)
        (λ v. (refl, refl, refl, refl, λ h. h))

  -- An answer to what is no open.
  pub other_answer-Quiet :
      (read : Reading J) (now id : ℕ) (msg : Msg) (c : Conn J)
      → lookup id c.routes.pending ≡ none
      → Quiet c (on_answer read now id msg c)
  unfolding on_answer
  other_answer-Quiet read now id msg c e = option_none (Quiet c) (lookup id c.routes.pending) _ e (
      option_cases (Quiet c) (lookup id c.routes.closing)
        (option_cases (Quiet c) (lookup id c.routes.abandoned) (Quiet-refl c)
          (λ there. opened_late-Quiet read id msg.result c))
        (λ key. closed-Quiet now id key c))

  on_notification-Quiet :
      (read : Reading J) (now : ℕ) (n : Option Notif) (c : Conn J)
      → Quiet c (on_notification read now n c)
  unfolding on_notification
  on_notification-Quiet read now none c = Quiet-refl c
  on_notification-Quiet read now (some n) c =
      option_cases (Quiet c) n.subscription (Quiet-refl c) (λ sub.
        option_cases (Quiet c) n.result (Quiet-refl c)
          (λ raw. route-Quiet read now (read.to_string sub) raw c))

  refuse_request-Quiet : (id : Value) (c : Conn J) → Quiet c (refuse_request id c)
  unfolding refuse_request
  refuse_request-Quiet id c = (refl, refl, refl, refl, λ h. h)

  -- A message is an answer, or quiet.
  pub on_message-on_answer :
      (P : Conn J → Type 0) (read : Reading J) (now : ℕ) (raw : Text) (c : Conn J)
      → ((d : Conn J) → Quiet c d → P d)
      → ((id : ℕ) (msg : Msg) → P (on_answer read now id msg c))
      → P (on_message read now raw c)
  unfolding on_message on_msg
  on_message-on_answer P read now raw c quiet answers =
      option_cases P (read.msg raw)
        (option_cases P (read.loose raw) (quiet c (Quiet-refl c))
          (λ id. quiet (refuse_request id c) (refuse_request-Quiet id c)))
        (λ msg.
          option_cases P msg.method
            (option_cases P msg.id (quiet c (Quiet-refl c))
              (λ v. option_cases P (read.as_u64 v) (quiet c (Quiet-refl c)) (λ id. answers id msg)))
            (λ method.
              option_cases P msg.id
                (quiet (on_notification read now msg.params c)
                  (on_notification-Quiet read now msg.params c))
                (λ id. quiet (refuse_request id c) (refuse_request-Quiet id c))))
