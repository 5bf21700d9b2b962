-- ===== src/Tests/Messages.antt =====
-- The theorems about the event hub and the ACARS messages, at concrete inputs.
use msfslogger.Base.{
  first_where, count_where, true, ℕ, ◌<◌, false, none, some, List, [], ◌∷◌, ◌++◌, ◌≡◌, refl, String,
}
use msfslogger.Db.{auto}
use msfslogger.Db.AcarsMessages.{file_acars_message_once}
use msfslogger.FlightManager.State.{OooiEventInput, off_event}
use msfslogger.EventHub.{
  pending_is, acars, status, HubMessage, EventHub, Action, unsubscribes, subscribes, defers, Built,
  payload_of, empty_hub, act, publish, flush, publish_deferred,
}
use msfslogger.EventHub.Delivery.{calls_to, calls_pending, quiet, publish_delivers, flush_delivers}
use msfslogger.EventHub.Pending.{History, entry}
use msfslogger.EventHub.Waiting.{Waiting, deferred_is_queued}
use msfslogger.Acars.{Dates, build_oooi_message}
use msfslogger.Acars.Keys.{oooi_filed_once}
use msfslogger.Acars.Dispatch.{DispatchPayload, dispatch_json, parse_dispatch_payload}
use msfslogger.Acars.Payload.{parse-stringify}
use msfslogger.Acars.Clearance.{octal_code, is_reserved, squawk_for_leg}
use msfslogger.Acars.Squawk.{squawk_found}
use msfslogger.Tests.Fixtures.{whole, logbook}
use msfslogger.Tests.Channels.{numbers}

-- Every listener unsubscribes the first subscription and defers a status.
abbrev react : ℕ → HubMessage → List (Action ℕ ℕ)
react listener msg = unsubscribes 0 ∷ defers status "" 1 ∷ []

abbrev build : ℕ → Built
build thunk = payload_of "{}"

abbrev hub : EventHub ℕ ℕ
hub = act (subscribes (acars ∷ []) 8) (act (subscribes (acars ∷ status ∷ []) 7) empty_hub)

publish_delivers_example :
    (publish react acars "{}" hub).delivered
    ≡ hub.delivered ++ calls_to acars "{}" hub.subscriptions
publish_delivers_example = publish_delivers react acars "{}" hub

flush_delivers_example :
    (flush (quiet build) build (act (defers status "" 1) hub)).delivered
    ≡ (act (defers status "" 1) hub).delivered
      ++ calls_pending build
          (act (defers status "" 1) hub).pending
          (act (defers status "" 1) hub).subscriptions
flush_delivers_example = flush_delivers build (act (defers status "" 1) hub)

-- A status is deferred, then an ACARS message is published to two listeners.
abbrev busy : EventHub ℕ ℕ
busy = publish (quiet build) acars "{}" (publish_deferred status "" 1 hub)

subscribed : History (quiet build) build hub
subscribed =
    History.acted (subscribes (acars ∷ []) 8) _
      (History.acted (subscribes (acars ∷ status ∷ []) 7) _ History.created)

deferred_is_queued_example :
    (first_where (pending_is status "") busy.pending ≡ some (entry status "" 1))
    × (count_where (pending_is status "") busy.pending ≡ 1)
    × (busy.flush_scheduled ≡ true)
    × (busy.immediates ≡ 1)
deferred_is_queued_example =
    deferred_is_queued (quiet build) build status "" 1 busy
      (Waiting.published acars "{}" _ (λ l msg. tt) (Waiting.deferred hub subscribed))

abbrev dates : Dates ℕ
dates = record { parse_date = λ s. some 1000; later_iso = λ s n. s; stringify = λ j. "{}" }

abbrev off_at : String → OooiEventInput
off_at at = record {
  flight_id = 12;
  event = off_event;
  at = at;
  airport_icao = some "LSZB";
  stand = none;
  aircraft = none;
  destination_ident = none;
  planned_leg_id = none;
  estimated = false;
}

oooi_filed_once_example :
    file_acars_message_once
      (build_oooi_message whole numbers dates (off_at "2026-01-02"))
      "later"
      (file_acars_message_once
        (build_oooi_message whole numbers dates (off_at "2026-01-01"))
        "now"
        (logbook auto)).1
    ≡ (
      false,
      (file_acars_message_once
          (build_oooi_message whole numbers dates (off_at "2026-01-01"))
          "now"
          (logbook auto)).1,
    )
oooi_filed_once_example =
    oooi_filed_once whole numbers dates (off_at "2026-01-01") (off_at "2026-01-02") "now" "later"
      (logbook auto) refl refl

abbrev release : DispatchPayload ℕ
release = record {
  ofp = record { request_id = some "1"; sequence_id = none; time_generated = none };
  flight_number = some "LX1";
  aircraft_type = some "A320";
  aircraft_reg = none;
  origin = some "LSZH";
  destination = some "LSGG";
  alternates = "LSZB" ∷ [];
  route = none;
  cruise_alt_ft = some 28000;
  units = some "kgs";
  ete_sec = none;
  block_time_sec = none;
  fuel = record {
    ramp = some 9000;
    takeoff = none;
    landing = none;
    taxi = some 200;
    enroute_burn = none;
    contingency = none;
    reserve = none;
    alternate_burn = none;
  };
  weights = record {
    oew = some 42000;
    payload = none;
    est_zfw = some 60000;
    max_zfw = none;
    est_tow = none;
    est_ldw = none;
    pax_count = none;
    cargo = none;
  };
}

parse-stringify_example :
    parse_dispatch_payload whole (λ s. some (dispatch_json whole release)) (some "{}")
    ≡ some release
parse-stringify_example =
    parse-stringify whole (λ j. "{}") (λ s. some (dispatch_json whole release)) release refl refl
      refl

squawk_found_example :
    (n : ℕ) × (n < 4096)
    × (squawk_for_leg (λ n. n) 4096 ≡ some (octal_code n))
    × (is_reserved (octal_code n) ≡ false)
squawk_found_example = squawk_found (λ n. n) 4096
