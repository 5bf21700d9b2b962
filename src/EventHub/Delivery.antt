-- ===== src/EventHub/Delivery.antt =====
-- Who is called by a publish (src/eventHub.ts).
use mathlib.Core.List.{append-nil, append_assoc}
use msfslogger.Base.{
  ℕ, Bool, List, [], ◌∷◌, ◌++◌, ◌==◌, map, ◌≡◌, refl, sym, ap, ◌∙◌, inl, inr, arith, Bool-cases,
  String, count_where, where_rows,
}
use msfslogger.EventHub.{
  EventTopic, HubMessage, Subscription, PendingPublish, EventHub, Action, subscribes, unsubscribes,
  defers, Built, payload_of, undefined, failed, subscribe, unsubscribe, listens, listener_count,
  schedule_flush, publish_deferred, act, act_all, call, deliver, publish, publish_built,
  flush_entry, flush_all, flush,
}

module _ {ℓ} {A : Type ℓ} where
  pub where_rows-none_of_count :
      (p : A → Bool) (xs : List A) → count_where p xs ≡ 0 → where_rows p xs ≡ []
  unfolding count_where where_rows
  where_rows-none_of_count p [] h = refl
  where_rows-none_of_count p (x ∷ xs) h = ground (arith, h, where_rows-none_of_count p xs)

abbrev pub message : EventTopic → String → HubMessage
message topic payload = record { topic = topic; payload = payload }

module _ {L : Type 0} where
  -- One call of each of the listeners given, in their order.
  abbrev pub calls_of : HubMessage → List (Subscription L) → List (ℕ × HubMessage)
  calls_of msg subs = map (λ sub. (sub.id, msg)) subs

  -- The calls that a publish makes: one for each subscription to the topic.
  abbrev pub calls_to : EventTopic → String → List (Subscription L) → List (ℕ × HubMessage)
  calls_to topic payload subs = calls_of (message topic payload) (where_rows (listens topic) subs)

module _ {L B : Type 0} where
  schedule-delivered : (hub : EventHub L B) → (schedule_flush hub).delivered ≡ hub.delivered
  unfolding schedule_flush
  schedule-delivered hub = ground arith

  act-delivered : (a : Action L B) (hub : EventHub L B) → (act a hub).delivered ≡ hub.delivered
  unfolding act subscribe unsubscribe publish_deferred
  act-delivered (subscribes topics listener) hub = refl
  act-delivered (unsubscribes i) hub = refl
  act-delivered (defers topic key thunk) hub = schedule-delivered _

  act_all-delivered :
      (acts : List (Action L B)) (hub : EventHub L B) → (act_all acts hub).delivered ≡ hub.delivered
  unfolding act_all
  act_all-delivered [] hub = refl
  act_all-delivered (a ∷ rest) hub = act_all-delivered rest (act a hub) ∙ act-delivered a hub

module _ {L B : Type 0} (react : L → HubMessage → List (Action L B)) where
  deliver-delivered :
      (msg : HubMessage) (subs : List (Subscription L)) (hub : EventHub L B)
      → (deliver react msg subs hub).delivered ≡ hub.delivered ++ calls_of msg subs
  unfolding deliver call
  deliver-delivered msg [] hub = sym (append-nil hub.delivered)
  deliver-delivered msg (sub ∷ rest) hub =
      deliver-delivered msg rest (call react msg sub hub)
      ∙ ap (λ ds. ds ++ calls_of msg rest) (act_all-delivered (react sub.listener msg) _)
      ∙ append_assoc hub.delivered ((sub.id, msg) ∷ []) (calls_of msg rest)

  -- A publish calls every listener that was subscribed to the topic when it began, once and in
  -- order of subscription, and no other, whatever the listeners do to the hub meanwhile.
  pub publish_delivers :
      (topic : EventTopic) (payload : String) (hub : EventHub L B)
      → (publish react topic payload hub).delivered
        ≡ hub.delivered ++ calls_to topic payload hub.subscriptions
  unfolding publish listener_count
  publish_delivers topic payload hub =
      elim (Bool-cases (count_where (listens topic) hub.subscriptions == 0)) [
        | inl e ↦
            rw (e, where_rows-none_of_count (listens topic) hub.subscriptions (ground arith))
              (sym (append-nil hub.delivered))
        | inr e ↦ rw e (
            deliver-delivered (message topic payload) (where_rows (listens topic) hub.subscriptions)
              hub)
      ]

-- A flush whose listeners leave the hub alone.
module _ {L B : Type 0} (build : B → Built) where
  abbrev pub quiet : L → HubMessage → List (Action L B)
  quiet listener msg = []

  abbrev pub calls_built : EventTopic → Built → List (Subscription L) → List (ℕ × HubMessage)
  calls_built topic (payload_of payload) subs = calls_to topic payload subs
  calls_built topic undefined subs = []
  calls_built topic failed subs = []

  -- The calls that the pending entries stand for, entry by entry.
  abbrev pub calls_pending : List (PendingPublish B) → List (Subscription L) → List (ℕ × HubMessage)
  calls_pending [] subs = []
  calls_pending (p ∷ ps) subs = calls_built p.topic (build p.thunk) subs ++ calls_pending ps subs

  deliver-subscriptions :
      (msg : HubMessage) (subs : List (Subscription L)) (hub : EventHub L B)
      → (deliver quiet msg subs hub).subscriptions ≡ hub.subscriptions
  unfolding deliver call act_all
  deliver-subscriptions msg [] hub = refl
  deliver-subscriptions msg (sub ∷ rest) hub =
      deliver-subscriptions msg rest (call quiet msg sub hub)

  publish-subscriptions :
      (topic : EventTopic) (payload : String) (hub : EventHub L B)
      → (publish quiet topic payload hub).subscriptions ≡ hub.subscriptions
  unfolding publish
  publish-subscriptions topic payload hub = elim (Bool-cases (listener_count topic hub == 0)) [
    | inl e ↦ rw e refl
    | inr e ↦ rw e (
        deliver-subscriptions (message topic payload) (where_rows (listens topic) hub.subscriptions)
          hub)
  ]

  built-subscriptions :
      (topic : EventTopic) (b : Built) (hub : EventHub L B)
      → (publish_built quiet build topic b hub).subscriptions ≡ hub.subscriptions
  unfolding publish_built
  built-subscriptions topic (payload_of payload) hub = publish-subscriptions topic payload hub
  built-subscriptions topic undefined hub = refl
  built-subscriptions topic failed hub = refl

  built-delivered :
      (topic : EventTopic) (b : Built) (hub : EventHub L B)
      → (publish_built quiet build topic b hub).delivered
        ≡ hub.delivered ++ calls_built topic b hub.subscriptions
  unfolding publish_built
  built-delivered topic (payload_of payload) hub = publish_delivers quiet topic payload hub
  built-delivered topic undefined hub = sym (append-nil hub.delivered)
  built-delivered topic failed hub = sym (append-nil hub.delivered)

  no_calls_built :
      (topic : EventTopic) (b : Built) (subs : List (Subscription L))
      → count_where (listens topic) subs ≡ 0
      → calls_built topic b subs ≡ []
  no_calls_built topic (payload_of payload) subs h =
      rw (where_rows-none_of_count (listens topic) subs h) refl
  no_calls_built topic undefined subs h = refl
  no_calls_built topic failed subs h = refl

  entry-delivered :
      (p : PendingPublish B) (hub : EventHub L B)
      → ((flush_entry quiet build p hub).delivered
          ≡ hub.delivered ++ calls_built p.topic (build p.thunk) hub.subscriptions)
        × ((flush_entry quiet build p hub).subscriptions ≡ hub.subscriptions)
  unfolding flush_entry listener_count
  entry-delivered p hub = elim (Bool-cases (count_where (listens p.topic) hub.subscriptions == 0)) [
    | inl e ↦
        rw (e, no_calls_built p.topic (build p.thunk) hub.subscriptions (ground arith))
          (sym (append-nil hub.delivered), refl)
    | inr e ↦ rw e (
      built-delivered p.topic (build p.thunk) hub,
      built-subscriptions p.topic (build p.thunk) hub,
    )
  ]

  entries-delivered :
      (ps : List (PendingPublish B)) (hub : EventHub L B)
      → (flush_all quiet build ps hub).delivered
        ≡ hub.delivered ++ calls_pending ps hub.subscriptions
  unfolding flush_all
  entries-delivered [] hub = sym (append-nil hub.delivered)
  entries-delivered (p ∷ ps) hub =
      let (calls, subs) = entry-delivered p hub in
      entries-delivered ps (flush_entry quiet build p hub)
      ∙ rw (calls, subs)
          (append_assoc hub.delivered (calls_built p.topic (build p.thunk) hub.subscriptions)
            (calls_pending ps hub.subscriptions))

  -- With listeners that leave the hub alone, a flush calls the listeners of every deferred entry
  -- that still builds a payload, entry by entry in the order of the pending list.
  pub flush_delivers :
      (hub : EventHub L B)
      → (flush quiet build hub).delivered
        ≡ hub.delivered ++ calls_pending hub.pending hub.subscriptions
  unfolding flush
  flush_delivers hub = entries-delivered hub.pending _
