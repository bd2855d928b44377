-- ===== src/Channels.antt =====
-- ssh/connection/channels: the channels of a connection.
pub mod TerminalSize
pub mod Data
pub mod Builder
pub mod Session
pub mod Tasks
