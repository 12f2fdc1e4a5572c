-- ===== src/Cli.antt =====
-- The command line protocol of src/cli and include/decof/cli.
pub mod Encoder
pub mod Decoder
pub mod Codec
pub mod Growth
pub mod Shift
pub mod Visitors
pub mod Words
pub mod Commands
pub mod Pubsub
pub mod Scanner
pub mod Parser
pub mod Reading
pub mod Base
