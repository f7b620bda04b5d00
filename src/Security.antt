-- ===== src/Security.antt =====
-- security/actor_signature.py and api/request_signature.py: the signatures of actors and requests.
-- SHA-256 and HMAC, `str.upper` and the reading of a number are parameters, as the record `Platform`.
-- A body stands as its text.
pub mod Claims
pub mod Headers
pub mod Requests
pub mod Csv
pub mod RoundTrip
pub mod Checked
pub mod Accepted
pub mod Binding
pub mod Replays
pub mod Actors
pub mod Authorized
pub mod Admitted
pub mod Examples
