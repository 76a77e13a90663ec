-- ===== src/App.antt =====
-- homeinfra/app.py: the HTTP API. Requests holds the parsing of bodies and of query values, Sanitize
-- what may be written to the audit log, Routes the endpoints and what they ask for, Dispatch the
-- handling of a request, Startup the choice of the collector. The others are theorems.
pub mod Requests
pub mod Sanitize
pub mod Routes
pub mod Dispatch
pub mod Startup
