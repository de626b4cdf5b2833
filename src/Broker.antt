-- ===== src/Broker.antt =====
-- The message broker of a node: its configuration file, the supervisor of its process, the collapse to
-- a single node, and the announcements of peers (asty/internal/core/natsconf; natssup.go,
-- natswatch.go, natssolo.go and a part of commands.go in asty/internal/agent).
pub mod Conf
pub mod Files
pub mod State
pub mod Supervisor
pub mod Announce
pub mod Streams
pub mod Serving
pub mod Recovery
pub mod Collapse
