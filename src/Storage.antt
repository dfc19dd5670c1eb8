-- ===== src/Storage.antt =====
-- src/storage/: one module for each table of the TrustStore.
pub mod DisclosureCursor
pub mod SeenNonces
pub mod Workerd
pub mod PeerLeaseCounters
pub mod ActorCaBundle
pub mod PeerReceipts
pub mod PendingAttestations
pub mod PeerAttestations
pub mod RegistryTags
pub mod RegistryMembership
pub mod CaBundleCache
mod Tests
mod WriteTests
