-- ===== src/JsMap.antt =====
-- The language's `Map`: entries in the order in which their keys first came in. `set` on a key
-- that is there keeps its place, `delete` drops the entry. A `Set` is a map of units.
mod Defs
pub mod Laws
pub mod Nested
unfoldable pub use Defs.{JsMap, empty, get, set, delete, has, size, keys, values, IsMap}
