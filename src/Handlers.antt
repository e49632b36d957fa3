-- ===== src/Handlers.antt =====
-- handlers/handlers.go. `Access` has the API key and the CORS checks, also those of proxy/handler.go,
-- `Origins` the reading of the origins that CORS allows, `Etag` the making and the comparison of ETags,
-- `SaveConfig` the configuration endpoints, `AtomicWrite` the write of the file, `Endpoints` starting,
-- stopping and status, `Items` the list of models and the worker endpoints, `FleetView` the view of the
-- fleet. The other children prove.
pub mod Access
pub mod Etag
pub mod EtagText
pub mod SaveConfig
pub mod Session
pub mod Admission
pub mod Origins
pub mod Saves
pub mod AtomicWrite
pub mod Endpoints
pub mod Items
pub mod LocalItems
pub mod FleetView
pub mod FleetNames
