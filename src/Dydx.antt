-- ===== src/Dydx.antt =====
-- hyper_smart_observer/dydx_v4: the observer of dYdX v4 accounts that trades on paper only.
pub mod Models
pub mod Config
pub mod Lifecycle
pub mod Safety
pub mod Samples
pub mod Consensus
pub mod Signals
pub mod Ledger
pub mod Paper
pub mod Risk
pub mod Scanner
pub mod Exits
pub mod Stream
pub mod FullNode
pub mod Clusters
pub mod Fills
pub mod Edge
pub mod NoTrade
