-- ===== src/Fleet.antt =====
-- fleet/fleet.go and fleet/client.go. `Port` finds the port of a model, `Worker` builds workers and
-- reads their replies, `Registry` keeps them with its cache of probes, `Gather` probes them all at a
-- time, `Views` derives what the API shows. The other children prove.
pub mod Port
pub mod Ports
pub mod PortText
pub mod Worker
pub mod Registry
pub mod Views
pub mod Workers
pub mod Caching
pub mod Secrets
pub mod Gather
pub mod Gathered
pub mod InOrder
