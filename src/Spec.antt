-- ===== src/Spec.antt =====
-- Module specs and lists of them.
mod Defs
mod Lists
mod Count
unfoldable pub use Defs.*
unfoldable pub use Lists.*
unfoldable pub use Count.*
