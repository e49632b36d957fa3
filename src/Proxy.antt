-- ===== src/Proxy.antt =====
-- proxy/proxy.go and proxy/handler.go: the OpenAI-compatible router. `Table` builds the routing table,
-- `Router` keeps it fresh, `Forward` handles a generation request, and `Flight` has the requests that
-- share one rebuild. `Replies` has the errors that the proxy answers, `Transport` an attempt at a target,
-- `Listing` GET /v1/models, and `Warnings` what is logged about a name that two machines claim. The other children prove.
pub mod Table
pub mod Router
pub mod Forward
pub mod Routes
pub mod Warnings
pub mod Published
pub mod Requests
pub mod Flight
pub mod InFlight
pub mod SingleFlight
pub mod Waiting
pub mod Replies
pub mod Errors
pub mod Transport
pub mod Listing
pub mod ListText
