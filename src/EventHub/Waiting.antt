-- ===== src/EventHub/Waiting.antt =====
-- What is deferred waits for a flush that is queued (src/eventHub.ts).
use text.Mathlib.TextEquality.{eq_iff}
use msfslogger.Base.{
  true, false, none, some, List, [], ◌∷◌, ◌==◌, ◌≡◌, refl, inl, inr, arith, Bool-cases, String, All,
  first_where, count_where, where_rows,
}
use msfslogger.Base.MapSet.{first_where-map_set_same, first_where-map_set_other}
use msfslogger.Base.Table.{first_where_holds}
use msfslogger.Base.Unique.{count_where-pos_of_first}
use msfslogger.EventHub.{
  EventTopic, topic_name, HubMessage, Subscription, PendingPublish, EventHub, Action, subscribes,
  unsubscribes, defers, Built, subscribe, unsubscribe, listens, pending_is, listener_count,
  publish_deferred, act, act_all, call, deliver, publish,
}
use msfslogger.EventHub.Pending.{History, History-HubInv, entry, schedule-pending, with_entry}

module _ {L B : Type 0} (topic : EventTopic) (key : String) where
  -- The action defers nothing under this topic and key.
  abbrev pub Spares : Action L B → Type 0
  Spares (subscribes topics listener) = Unit
  Spares (unsubscribes i) = Unit
  Spares (defers t k thunk) = pending_is topic key (entry t k thunk) ≡ false

  abbrev pub Entry : B → EventHub L B → Type 0
  Entry thunk hub = first_where (pending_is topic key) hub.pending ≡ some (entry topic key thunk)

  deferred-Entry :
      (thunk : B) (hub : EventHub L B) → Entry thunk (publish_deferred topic key thunk hub)
  unfolding publish_deferred
  deferred-Entry thunk hub = rw (schedule-pending (with_entry topic key thunk hub)) (
      first_where-map_set_same (pending_is topic key) (pending_is topic key) (entry topic key thunk)
        (ground (arith, eq_iff key key, eq_iff (topic_name topic) (topic_name topic))) (λ x. refl)
        hub.pending)

  act-Entry :
      (thunk : B) (a : Action L B) (hub : EventHub L B)
      → Spares a
      → Entry thunk hub
      → Entry thunk (act a hub)
  unfolding act subscribe unsubscribe publish_deferred
  act-Entry thunk (subscribes topics listener) hub s e = e
  act-Entry thunk (unsubscribes i) hub s e = e
  act-Entry thunk (defers t k b) hub s e =
      rw
        (
          schedule-pending (with_entry t k b hub),
          first_where-map_set_other (pending_is topic key) (pending_is t k) (entry t k b) s
              (λ x h. apart x h) hub.pending,
        )
        e
    where
      apart : (x : PendingPublish B) → pending_is t k x ≡ true → pending_is topic key x ≡ false
      apart x h = ground (
        arith,
        s,
        h,
        eq_iff k key,
        eq_iff x.key key,
        eq_iff x.key k,
        eq_iff (topic_name t) (topic_name topic),
        eq_iff (topic_name x.topic) (topic_name topic),
        eq_iff (topic_name x.topic) (topic_name t),
      )

  act_all-Entry :
      (thunk : B) (acts : List (Action L B)) (hub : EventHub L B)
      → All Spares acts
      → Entry thunk hub
      → Entry thunk (act_all acts hub)
  unfolding act_all
  act_all-Entry thunk [] hub s e = e
  act_all-Entry thunk (a ∷ rest) hub s e =
      act_all-Entry thunk rest (act a hub) s.1 (act-Entry thunk a hub s.0 e)

-- A hub on which a thunk was deferred under this topic and key, and that was then used further,
-- with no flush yet and nothing else deferred under that topic and key.
pub data Waiting {L B : Type 0} (react : L → HubMessage → List (Action L B)) (build : B → Built)
    (topic : EventTopic) (key : String) (thunk : B) : EventHub L B → Type 0 where
  deferred :
      (hub : EventHub L B)
      → History react build hub
      → Waiting react build topic key thunk (publish_deferred topic key thunk hub)
  acted :
      (a : Action L B) (hub : EventHub L B)
      → Spares topic key a
      → Waiting react build topic key thunk hub
      → Waiting react build topic key thunk (act a hub)
  published :
      (t : EventTopic) (payload : String) (hub : EventHub L B)
      → ((l : L) (msg : HubMessage) → All (Spares topic key) (react l msg))
      → Waiting react build topic key thunk hub
      → Waiting react build topic key thunk (publish react t payload hub)

module _ {L B : Type 0} (react : L → HubMessage → List (Action L B)) (build : B → Built)
    (topic : EventTopic) (key : String) (thunk : B) where
  deliver-Entry :
      (msg : HubMessage) (subs : List (Subscription L)) (hub : EventHub L B)
      → ((l : L) (m : HubMessage) → All (Spares topic key) (react l m))
      → Entry topic key thunk hub
      → Entry topic key thunk (deliver react msg subs hub)
  unfolding deliver call
  deliver-Entry msg [] hub s e = e
  deliver-Entry msg (sub ∷ rest) hub s e =
      deliver-Entry msg rest (call react msg sub hub) s
        (act_all-Entry topic key thunk (react sub.listener msg) _ (s sub.listener msg) e)

  publish-Entry :
      (t : EventTopic) (payload : String) (hub : EventHub L B)
      → ((l : L) (m : HubMessage) → All (Spares topic key) (react l m))
      → Entry topic key thunk hub
      → Entry topic key thunk (publish react t payload hub)
  unfolding publish
  publish-Entry t payload hub s e = elim (Bool-cases (listener_count t hub == 0)) [
    | inl z ↦ rw z e
    | inr z ↦ rw z (
        deliver-Entry (record { topic = t; payload = payload })
          (where_rows (listens t) hub.subscriptions) hub s e)
  ]

  Waiting-Entry :
      (hub : EventHub L B) → Waiting react build topic key thunk hub → Entry topic key thunk hub
  Waiting-Entry hub (deferred h p) = deferred-Entry topic key thunk h
  Waiting-Entry hub (acted a h s w) = act-Entry topic key thunk a h s (Waiting-Entry h w)
  Waiting-Entry hub (published t payload h s w) = publish-Entry t payload h s (Waiting-Entry h w)

  Waiting-History :
      (hub : EventHub L B) → Waiting react build topic key thunk hub → History react build hub
  unfolding act
  Waiting-History hub (deferred h p) = History.acted (defers topic key thunk) h p
  Waiting-History hub (acted a h s w) = History.acted a h (Waiting-History h w)
  Waiting-History hub (published t payload h s w) =
      History.published t payload h (Waiting-History h w)

  -- What is deferred is not forgotten and not flushed twice: on a hub of any history, after a thunk
  -- is deferred and until the next flush, as long as nothing else is deferred under the topic and
  -- key, those have exactly one pending entry, which has the thunk, and exactly one flush is queued.
  pub deferred_is_queued :
      (hub : EventHub L B)
      → Waiting react build topic key thunk hub
      → (first_where (pending_is topic key) hub.pending ≡ some (entry topic key thunk))
        × (count_where (pending_is topic key) hub.pending ≡ 1)
        × (hub.flush_scheduled ≡ true)
        × (hub.immediates ≡ 1)
  deferred_is_queued hub w =
      let e = Waiting-Entry hub w in
      let (queued, once) = History-HubInv react build hub (Waiting-History hub w) in
      let there =
        count_where-pos_of_first (pending_is topic key) (pending_is topic key) hub.pending
          (entry topic key thunk) e (first_where_holds (pending_is topic key) hub.pending _ e) in
      elim queued [
        | inl (scheduled, one) ↦ (e, omega (arith, once topic key, there), scheduled, one)
        | inr (idle, none_queued, nothing) ↦
            absurd (unfold first_where in some_ne (rw nothing at e))
      ]
    where
      some_ne : none ≡ some (entry topic key thunk) → ⊥
      some_ne h = ground arith
