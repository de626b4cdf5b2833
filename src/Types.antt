-- ===== src/Types.antt =====
-- asty/internal/core/types: the records that the cluster store holds and the rules on them.
-- Times are nanoseconds since the Unix epoch; the zero time of Go is `none`.
pub mod Allocation
pub mod Node
pub mod Service
