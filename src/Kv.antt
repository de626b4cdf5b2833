-- ===== src/Kv.antt =====
-- asty/internal/infra/kv: the cluster state in a NATS JetStream key-value bucket.
-- The bucket, the codec (CBOR), the clock and the random source are not the program's: they are the
-- record `Store`, over a state `B` that every call passes on. What other writers do in between is a
-- part of that state, so a call may meet any change to the bucket. A deadline that runs out is one
-- of the failures.
pub mod Store
pub mod Allocations
pub mod Cooldowns
pub mod Settings
pub mod Nodes
pub mod Rounds
