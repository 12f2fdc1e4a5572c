-- ===== src/Scgi.antt =====
-- The SCGI protocol of src/scgi and include/decof/scgi.
pub mod Bencode
pub mod Encoder
pub mod Put
pub mod Request
pub mod Response
pub mod Xml
pub mod Context
