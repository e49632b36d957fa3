-- ===== src/Tests.antt =====
-- The theorems at concrete inputs, and tests of the definitions on inputs that can be followed in the
-- source.
mod Samples
mod ManagerTests
mod ConcurrencyTests
mod FleetTests
mod ProxyTests
mod MainTests
mod MetricsTests
mod ClientTests
mod ServerTests
mod GateTests
mod HandlerTests
