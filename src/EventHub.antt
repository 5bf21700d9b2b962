-- ===== src/EventHub.antt =====
-- The in-process hub of server-sent events (src/eventHub.ts). A listener, of a type L, is called
-- with a message and may then subscribe, unsubscribe or defer, before it returns or throws: what it
-- does is the parameter `react`. A deferred payload is built by a thunk of a type B, by `build`.
pub mod Delivery
pub mod Pending
pub mod Waiting
use text.Mathlib.TextEquality.{eq_iff}
use msfslogger.Base.{
  ℕ, suc, ◌-◌, Bool, true, false, Option, none, some, List, [], ◌∷◌, ◌++◌, ◌==◌, ◌&&◌, ◌||◌,
  if◌then◌else◌, String, str_eq, length, where_rows, delete_where, count_where,
}
use msfslogger.Base.MapSet.{map_set}

pub data EventTopic : Type 0 where
  status flight_state acars flights_changed navdata_demand : EventTopic

abbrev pub event_topics : List EventTopic
event_topics = status ∷ flight_state ∷ acars ∷ flights_changed ∷ navdata_demand ∷ []

abbrev pub topic_name : EventTopic → String
topic_name status = "status"
topic_name flight_state = "flight-state"
topic_name acars = "acars"
topic_name flights_changed = "flights-changed"
topic_name navdata_demand = "navdata-demand"

abbrev names_topic : List EventTopic → String → Bool
names_topic [] s = false
names_topic (t ∷ ts) s = str_eq (topic_name t) s || names_topic ts s

unfoldable pub is_event_topic : String → Bool
is_event_topic s = names_topic event_topics s

abbrev pub same_topic : EventTopic → EventTopic → Bool
same_topic t u = str_eq (topic_name t) (topic_name u)

-- `topics.has(topic)`
abbrev pub has_topic : List EventTopic → EventTopic → Bool
has_topic [] t = false
has_topic (u ∷ us) t = same_topic u t || has_topic us t

pub record HubMessage : Type 0 where
  pub topic : EventTopic
  pub payload : String

-- A subscription is told from another by its identity.
pub record Subscription (L : Type 0) : Type 0 where
  pub id : ℕ
  pub topics : List EventTopic
  pub listener : L

pub record PendingPublish (B : Type 0) : Type 0 where
  pub topic : EventTopic
  pub key : String
  pub thunk : B

-- The fields of EventHub, with the next identity, how many flushes setImmediate() has queued, and
-- the calls of listeners so far.
pub record EventHub (L B : Type 0) : Type 0 where
  pub subscriptions : List (Subscription L)
  pub next_subscription : ℕ
  pub pending : List (PendingPublish B)
  pub flush_scheduled : Bool
  pub immediates : ℕ
  pub delivered : List (ℕ × HubMessage)

-- What a listener does to the hub.
pub data Action (L B : Type 0) : Type 0 where
  subscribes : List EventTopic → L → Action L B
  unsubscribes : ℕ → Action L B
  defers : EventTopic → String → B → Action L B

-- What a thunk gives: a payload as JSON, undefined, or a throw.
pub data Built : Type 0 where
  payload_of : String → Built
  undefined failed : Built

module _ {L : Type 0} where
  abbrev pub subscription_is : ℕ → Subscription L → Bool
  subscription_is i sub = sub.id == i

  abbrev pub listens : EventTopic → Subscription L → Bool
  listens topic sub = has_topic sub.topics topic

module _ {B : Type 0} where
  -- The key of the Map: topics hold no NUL, so that topic and key can be told apart.
  abbrev pub pending_is : EventTopic → String → PendingPublish B → Bool
  pending_is topic key p = same_topic p.topic topic && str_eq p.key key

module _ {L B : Type 0} where
  abbrev pub empty_hub : EventHub L B
  empty_hub = record {
    subscriptions = [];
    next_subscription = 0;
    pending = [];
    flush_scheduled = false;
    immediates = 0;
    delivered = [];
  }

  -- The hub with the new subscription; its identity is what unsubscribes.
  unfoldable pub subscribe : List EventTopic → L → EventHub L B → EventHub L B
  subscribe topics listener hub = record hub {
    subscriptions =
        hub.subscriptions
        ++ record { id = hub.next_subscription; topics = topics; listener = listener } ∷ [];
    next_subscription = suc hub.next_subscription;
  }

  -- The function that subscribe() returns; a second call finds nothing to delete.
  unfoldable pub unsubscribe : ℕ → EventHub L B → EventHub L B
  unsubscribe i hub = record hub {
    subscriptions = delete_where (subscription_is i) hub.subscriptions;
  }

  unfoldable pub listener_count : EventTopic → EventHub L B → ℕ
  listener_count topic hub = count_where (listens topic) hub.subscriptions

  -- `if (!this.flushScheduled)`
  unfoldable pub schedule_flush : EventHub L B → EventHub L B
  schedule_flush hub =
      if hub.flush_scheduled
      then hub
      else record hub { flush_scheduled = true; immediates = suc hub.immediates }

  unfoldable pub publish_deferred : EventTopic → String → B → EventHub L B → EventHub L B
  unfolding schedule_flush
  publish_deferred topic key thunk hub = schedule_flush (record hub {
    pending =
        map_set (pending_is topic key) (record { topic = topic; key = key; thunk = thunk })
          hub.pending;
  })

  unfoldable pub act : Action L B → EventHub L B → EventHub L B
  unfolding subscribe unsubscribe publish_deferred
  act (subscribes topics listener) hub = subscribe topics listener hub
  act (unsubscribes i) hub = unsubscribe i hub
  act (defers topic key thunk) hub = publish_deferred topic key thunk hub

  unfoldable pub act_all : List (Action L B) → EventHub L B → EventHub L B
  unfolding act
  act_all [] hub = hub
  act_all (a ∷ as') hub = act_all as' (act a hub)

module _ {L B : Type 0} (react : L → HubMessage → List (Action L B)) where
  -- One call of a listener; what it throws is logged and dropped.
  unfoldable pub call : HubMessage → Subscription L → EventHub L B → EventHub L B
  unfolding act_all
  call msg sub hub =
      act_all (react sub.listener msg)
        (record hub { delivered = hub.delivered ++ (sub.id, msg) ∷ [] })

  -- The loop over the targets, taken before the first call.
  unfoldable pub deliver : HubMessage → List (Subscription L) → EventHub L B → EventHub L B
  unfolding call
  deliver msg [] hub = hub
  deliver msg (sub ∷ rest) hub = deliver msg rest (call msg sub hub)

  unfoldable pub publish : EventTopic → String → EventHub L B → EventHub L B
  unfolding deliver listener_count
  publish topic payload hub =
      if listener_count topic hub == 0
      then hub
      else deliver (record { topic = topic; payload = payload })
          (where_rows (listens topic) hub.subscriptions) hub

  -- What a thunk may read is given by the hub's surroundings.
  module _ (build : B → Built) where
    unfoldable pub publish_built : EventTopic → Built → EventHub L B → EventHub L B
    unfolding publish
    publish_built topic (payload_of payload) hub = publish topic payload hub
    publish_built topic undefined hub = hub
    publish_built topic failed hub = hub

    -- One entry of a flush: without listeners nothing is built.
    unfoldable pub flush_entry : PendingPublish B → EventHub L B → EventHub L B
    unfolding publish_built listener_count
    flush_entry p hub =
        if listener_count p.topic hub == 0 then hub else publish_built p.topic (build p.thunk) hub

    unfoldable pub flush_all : List (PendingPublish B) → EventHub L B → EventHub L B
    unfolding flush_entry
    flush_all [] hub = hub
    flush_all (p ∷ ps) hub = flush_all ps (flush_entry p hub)

    -- The callback of setImmediate().
    unfoldable pub flush : EventHub L B → EventHub L B
    unfolding flush_all
    flush hub =
        flush_all hub.pending
          (record hub { pending = []; flush_scheduled = false; immediates = hub.immediates - 1 })
