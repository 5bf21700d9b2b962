-- ===== src/FlightManager.antt =====
-- The flight recorder (src/flightManager.ts): a state machine fed with telemetry frames, which
-- opens and closes ground sessions, starts, resumes and ends flights, and accumulates what it
-- flew.
pub mod State
pub mod Legs
pub mod Ground
pub mod Recording
pub mod Flight
pub mod Resume
pub mod Frame
pub mod Coherence
pub mod Transitions
pub mod Events
pub mod Runs
pub mod Behaviour
pub mod Takeoff
pub mod Ending
