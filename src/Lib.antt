-- ===== src/Lib.antt =====
-- Verification library of the msfslogger server: a flight logbook that is fed with telemetry of a
-- flight simulator. Paths are those of the repository.
--
-- A telemetry frame reaches FlightManager.onFrame(), which debounces takeoffs and landings, keeps a
-- session for an aircraft parked on the ground, records points, files messages, and reads and
-- writes the logbook through the modules of src/db. At takeoff and on the ground it asks the leg
-- matcher which planned leg of the active trip is being flown. The routes call the same database
-- functions for what the user enters by hand.
--
-- Which file models what:
--   Db.antt            the rows of src/types.ts and the database as a value
--   Db/PlannedLegs     src/db/plannedLegs.ts: links between flights and legs (linkFlightToPlannedLeg
--                      is link_flight_to_planned_leg, and so on), statuses, creation, deletion
--   Db/GroundSessions  src/db/groundSessions.ts; Manual.antt is insertManualGroundSession()
--   Db/Flights, Db/Trips, Db/AcarsMessages   src/db/flights.ts, src/db/trips.ts,
--                      src/db/acarsMessages.ts with src/acarsEvents.ts
--                      (Db/Flights/Combine is combineFlights(), Db/Trips/Removal and Restore are
--                      about deleteTrip())
--   Db/Sound           the invariant of the whole database and the writes that keep it
--   LegMatcher         src/legMatcher.ts
--   PlannedLegClose    src/plannedLegClose.ts
--   Geo, Airports, GroundState   src/geo.ts, src/airports.ts, src/groundState.ts
--   Traffic            src/trafficStore.ts and the batches of src/ingest.ts
--   Ingest             src/ingest.ts: the requests of the agent, over the recorder and the traffic
--   EventHub           src/eventHub.ts: Delivery.antt is who is called, Pending.antt what is queued
--   Auth               src/auth: IngestScope, McpScope and Middleware are the gates, Login the login
--                      route with its throttle, Sessions the session store
--   Settings           src/db/settings.ts
--   Acars              src/acars.ts: keys and OOOI and position messages; Dispatch, Loadsheet and
--                      Clearance are the messages of a planned leg
--   FlightManager      src/flightManager.ts: State.antt holds the fields, Legs.antt the caches and
--                      the calls of the matcher, Ground.antt the GROUND state, Recording.antt the
--                      points, Flight.antt and Resume.antt the flights, Frame.antt the handlers
--   Tests              the theorems at concrete inputs
--
-- How state is modelled: a method of the class is a function from Manager to Manager, a database
-- function is a function on Db, and a transaction that throws returns `thrown` with no database. A
-- table is a list of rows with its next id; UPDATE, DELETE and SELECT are update_where,
-- delete_where and first_where of Base/Lists.antt. Of the foreign keys, the actions on a delete are
-- modelled, and the check that the leg of a ground session exists. Every loop is a recursion on a list, but the
-- search for a squawk (Acars/Clearance), which has two rounds of fuel, since no two reserved codes
-- are neighbours, and the digits of a number n (Base/Text), which are given n + 1.
--
-- What is assumed: a `number` that is no counter is of a type N with the operations of
-- Base/Double.antt, about which nothing is assumed but where a theorem says so; the clock, the
-- dates, the airport list, the collation of texts and two message builders are fields of Env, and
-- one handler reads one instant; Acars.antt has builders that can fill them. Hashing, JSON.parse,
-- JSON.stringify, SUM and MAX of SQL, trimming and letter case are parameters where they occur,
-- and a body that was parsed is a value of Base/Json.antt. Counters and milliseconds are natural
-- numbers; a span of time that can be negative is an integer.
--
-- What is not modelled: the checks of the other foreign keys on an insert, logging, the notification listener beyond how often it is called, a
-- database read that throws inside a handler, a listener of the event hub that publishes while it
-- is called, the files of attached flight plans, the statistics and the search of flights, the
-- other routes, the parsers of flight plans, the navigation data, the exports, the
-- hashing of passwords and the client.
pub mod Base
pub mod Db
pub mod Geo
pub mod LegMatcher
pub mod GroundState
pub mod Airports
pub mod FlightManager
pub mod PlannedLegClose
pub mod Traffic
pub mod Settings
pub mod Auth
pub mod Ingest
pub mod EventHub
pub mod Acars
pub mod Tests
