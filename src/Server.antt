-- ===== src/Server.antt =====
-- server/server.go: `Index` builds the manager's table of models, `Limits` the rate limiter and the body
-- limits, `Reload` the live reload of the configuration, `Watch` the debounced file watcher, and
-- `Lifecycle` the making and the end of the server, `Routes` and `Chain` the way of a request to its
-- handler, and `WebUi` the routes of the web UI. The other children prove.
pub mod Index
pub mod Lifecycle
pub mod Limits
pub mod Reload
pub mod Shutdown
pub mod Watch
pub mod Routes
pub mod WebUi
pub mod Chain
pub mod Gates
pub mod Keys
