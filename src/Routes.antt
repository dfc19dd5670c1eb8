-- ===== src/Routes.antt =====
-- src/routes/: the checks before authentication, and src/router.ts.
pub mod PreAuthBudget
pub mod Hop
pub mod LeaseGate
pub mod LeaseMiddleware
pub mod BeadCreate
pub mod OciRegistry
pub mod Disclosure
pub mod Router
mod Tests
mod CapTests
