-- ===== src/Handles.antt =====
-- The kinds of handles, one module each, over the calls of Resource.antt.
pub mod Network
pub mod NetworkPort
pub mod NwFilter
pub mod NodeDevice
pub mod Interface
pub mod Secret
pub mod Stream
pub mod StoragePool
pub mod StorageVol
pub mod DomainSnapshot
pub mod DomainCheckpoint
pub mod Domain
pub mod Connect
