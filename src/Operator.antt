-- ===== src/Operator.antt =====
-- The Operator governance of src/autobugfix/operator.
pub mod Glob
pub mod Approvals
pub mod Layers
pub mod Policy
pub mod Guard
pub mod Events
pub mod Scope
pub mod Records
pub mod Store
pub mod Budget
pub mod Line
pub mod Projection
pub mod Lease
pub mod Metering
pub mod Scenario
pub mod Tests
pub mod LineTests
pub mod LeaseTests
pub mod MeteringTests
pub mod PolicyTests
pub mod EventTests
pub mod ScopeTests
