-- ===== src/EventHub/Pending.antt =====
-- What the hub keeps true whatever is done to it, by its users and by its listeners
-- (src/eventHub.ts).
use text.Mathlib.TextEquality.{eq_iff}
use msfslogger.Base.{
  suc, ◌≤◌, Bool, true, false, List, [], ◌∷◌, ◌==◌, ◌≡◌, ◌⊎◌, refl, ap, inl, inr, arith,
  if◌then◌else◌, Bool-cases, String, count_where, where_rows,
}
use msfslogger.Base.MapSet.{map_set, count_where-map_set_le, count_where-map_set_one}
use msfslogger.EventHub.{
  EventTopic, topic_name, HubMessage, Subscription, PendingPublish, EventHub, Action, subscribes,
  unsubscribes, defers, Built, payload_of, undefined, failed, empty_hub, subscribe, unsubscribe,
  listens, pending_is, listener_count, schedule_flush, publish_deferred, act, act_all, call,
  deliver, publish, publish_built, flush_entry, flush_all, flush,
}

module _ {B : Type 0} where
  abbrev pub entry : EventTopic → String → B → PendingPublish B
  entry topic key thunk = record { topic = topic; key = key; thunk = thunk }

  pending_one :
      (t u : EventTopic) (k j : String) (thunk : B) (ps : List (PendingPublish B))
      → count_where (pending_is t k) ps ≤ 1
      → count_where (pending_is t k) (map_set (pending_is u j) (entry u j thunk) ps) ≤ 1
  pending_one t u k j thunk ps c = elim (Bool-cases (pending_is t k (entry u j thunk))) [
    | inl e ↦
        count_where-map_set_one (pending_is t k) (pending_is u j) (entry u j thunk) (same e) ps c
    | inr e ↦
        omega
          (arith, count_where-map_set_le (pending_is t k) (pending_is u j) (entry u j thunk) e ps)
  ]
    where
      same :
          pending_is t k (entry u j thunk) ≡ true
          → (x : PendingPublish B) → pending_is t k x ≡ pending_is u j x
      same e x = ground (
        arith,
        e,
        eq_iff j k,
        eq_iff x.key k,
        eq_iff x.key j,
        eq_iff (topic_name u) (topic_name t),
        eq_iff (topic_name x.topic) (topic_name t),
        eq_iff (topic_name x.topic) (topic_name u),
      )

module _ {L B : Type 0} where
  -- One flush is queued, or none is and then nothing is pending.
  abbrev pub IsScheduled : EventHub L B → Type 0
  IsScheduled hub =
      ((hub.flush_scheduled ≡ true) × (hub.immediates ≡ 1))
      ⊎ ((hub.flush_scheduled ≡ false) × (hub.immediates ≡ 0) × (hub.pending ≡ []))

  -- A topic and a key have one pending entry at most.
  abbrev pub OnePending : EventHub L B → Type 0
  OnePending hub =
      (topic : EventTopic) (key : String) → count_where (pending_is topic key) hub.pending ≤ 1

  abbrev pub HubInv : EventHub L B → Type 0
  HubInv hub = IsScheduled hub × OnePending hub

  abbrev pub with_entry : EventTopic → String → B → EventHub L B → EventHub L B
  with_entry topic key thunk hub = record hub {
    pending = map_set (pending_is topic key) (entry topic key thunk) hub.pending;
  }

  schedule-IsScheduled :
      (hub : EventHub L B)
      → (hub.flush_scheduled ≡ true → hub.immediates ≡ 1)
      → (hub.flush_scheduled ≡ false → hub.immediates ≡ 0)
      → IsScheduled (schedule_flush hub)
  unfolding schedule_flush
  schedule-IsScheduled hub h k = elim (Bool-cases hub.flush_scheduled) [
    | inl e ↦ rw e (inl (refl, h e))
    | inr e ↦ rw e (inl (refl, ap suc (k e)))
  ]

  pub schedule-pending : (hub : EventHub L B) → (schedule_flush hub).pending ≡ hub.pending
  unfolding schedule_flush
  schedule-pending hub = ground arith

  defer-HubInv :
      (topic : EventTopic) (key : String) (thunk : B) (hub : EventHub L B)
      → HubInv hub
      → HubInv (publish_deferred topic key thunk hub)
  unfolding publish_deferred
  defer-HubInv topic key thunk hub (s, one) = (
    schedule-IsScheduled (with_entry topic key thunk hub) (λ e. ground (arith, s, e))
        (λ e. ground (arith, s, e)),
    λ t k.
        rw (schedule-pending (with_entry topic key thunk hub))
          (pending_one t topic k key thunk hub.pending (one t k)),
  )

  act-HubInv : (a : Action L B) (hub : EventHub L B) → HubInv hub → HubInv (act a hub)
  unfolding act subscribe unsubscribe
  act-HubInv (subscribes topics listener) hub h = h
  act-HubInv (unsubscribes i) hub h = h
  act-HubInv (defers topic key thunk) hub h = defer-HubInv topic key thunk hub h

  act_all-HubInv :
      (acts : List (Action L B)) (hub : EventHub L B) → HubInv hub → HubInv (act_all acts hub)
  unfolding act_all
  act_all-HubInv [] hub h = h
  act_all-HubInv (a ∷ rest) hub h = act_all-HubInv rest (act a hub) (act-HubInv a hub h)

module _ {L B : Type 0} (react : L → HubMessage → List (Action L B)) (build : B → Built) where
  deliver-HubInv :
      (msg : HubMessage) (subs : List (Subscription L)) (hub : EventHub L B)
      → HubInv hub
      → HubInv (deliver react msg subs hub)
  unfolding deliver call
  deliver-HubInv msg [] hub h = h
  deliver-HubInv msg (sub ∷ rest) hub h =
      deliver-HubInv msg rest (call react msg sub hub) (act_all-HubInv (react sub.listener msg) _ h)

  HubInv-if : (b : Bool) (s t : EventHub L B) → HubInv s → HubInv t → HubInv (if b then s else t)
  HubInv-if true s t p q = p
  HubInv-if false s t p q = q

  publish-HubInv :
      (topic : EventTopic) (payload : String) (hub : EventHub L B)
      → HubInv hub
      → HubInv (publish react topic payload hub)
  unfolding publish
  publish-HubInv topic payload hub h =
      HubInv-if (listener_count topic hub == 0) hub _ h
        (deliver-HubInv _ (where_rows (listens topic) hub.subscriptions) hub h)

  built-HubInv :
      (topic : EventTopic) (b : Built) (hub : EventHub L B)
      → HubInv hub
      → HubInv (publish_built react build topic b hub)
  unfolding publish_built
  built-HubInv topic (payload_of payload) hub h = publish-HubInv topic payload hub h
  built-HubInv topic undefined hub h = h
  built-HubInv topic failed hub h = h

  flush_all-HubInv :
      (ps : List (PendingPublish B)) (hub : EventHub L B)
      → HubInv hub
      → HubInv (flush_all react build ps hub)
  unfolding flush_all flush_entry
  flush_all-HubInv [] hub h = h
  flush_all-HubInv (p ∷ ps) hub h = flush_all-HubInv ps (flush_entry react build p hub) (
      HubInv-if (listener_count p.topic hub == 0) hub _ h
        (built-HubInv p.topic (build p.thunk) hub h))

  flush-HubInv : (hub : EventHub L B) → hub.immediates ≡ 1 → HubInv (flush react build hub)
  unfolding flush
  flush-HubInv hub q =
      flush_all-HubInv hub.pending _
        (inr (refl, ground arith, refl), λ t k. unfold count_where in ground arith)

-- What happens to a hub: its users and listeners act on it, something is published, and a queued
-- flush runs.
pub data History {L B : Type 0} (react : L → HubMessage → List (Action L B)) (build : B → Built)
    : EventHub L B → Type 0 where
  created : History react build empty_hub
  acted :
      (a : Action L B) (hub : EventHub L B)
      → History react build hub
      → History react build (act a hub)
  published :
      (topic : EventTopic) (payload : String) (hub : EventHub L B)
      → History react build hub
      → History react build (publish react topic payload hub)
  flushed :
      (hub : EventHub L B)
      → hub.immediates ≡ 1
      → History react build hub
      → History react build (flush react build hub)

-- At any time a hub has one flush queued, or none and then nothing is pending; and a topic and a
-- key have one entry at most.
pub History-HubInv :
    {L B : Type 0} (react : L → HubMessage → List (Action L B)) (build : B → Built)
    (hub : EventHub L B)
    → History react build hub
    → HubInv hub
History-HubInv react build hub created =
    (inr (refl, refl, refl), λ t k. unfold count_where in ground arith)
History-HubInv react build hub (acted a h p) = act-HubInv a h (History-HubInv react build h p)
History-HubInv react build hub (published topic payload h p) =
    publish-HubInv react build topic payload h (History-HubInv react build h p)
History-HubInv react build hub (flushed h q p) = flush-HubInv react build h q
