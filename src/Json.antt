-- ===== src/Json.antt =====
-- The values of Go's `any` that the library walks: what `encoding/json` decodes, and the other
-- numeric types that a caller may store. An object is a Go map: a key stands at most once, and the
-- order is the order in which a `range` loop meets the entries.
mod Values
mod Deletions
unfoldable pub use Values.*
unfoldable pub use Deletions.*
