-- ===== src/Proto.antt =====
-- The messages of proto/rpc.proto and proto/kv.proto that the client builds or reads, one record for
-- each. A field that is not set has proto3's default, which the `default_` constants write out.
pub mod Kv
pub mod Txn
pub mod Watch
pub mod Lease
