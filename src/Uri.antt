-- ===== src/Uri.antt =====
-- src/uri.rs: the `Uri` type and its operations, one child module for each group of them.
pub mod Data
pub mod Path
pub mod Parse
pub mod Cut
pub mod Slices
pub mod Resolve
pub mod Display
pub mod Pieces
pub mod RoundTrip
pub mod Stable
pub mod Grammar
pub mod Accepted
pub mod Schemes
pub mod Parsed
pub mod Characters
pub mod Components
