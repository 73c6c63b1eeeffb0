-- ===== src/Prelude/Bytes.antt =====
-- What the source uses of Go's `bytes`, `encoding/binary` and slices, over lists of byte values.
mod Laws
mod Slices
mod Defs
unfoldable pub use Defs.*
pub use Laws.*
pub use Slices.{slice-copied_self, slice-copied_ne, at_index-set_self, at_index-set_ne}
