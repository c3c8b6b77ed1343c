-- ===== src/Storage.antt =====
-- gaia_server/storage: the three backends and the registry that holds them.
pub mod Checkpoints
pub mod Cluster
pub mod Environment
pub mod Etcd
mod Examples
mod FactoryExamples
pub mod InMemory
pub mod Jetstream
pub mod Lazy
pub mod Minio
pub mod Reading
pub mod Registry
pub mod Settings
pub mod Streams
pub mod Bootstrap
