-- ===== src/Prelude/Order.antt =====
-- Rust's `Ord` as a total order by a test, the stable `sort` of the standard library, and the
-- `BTreeMap` of the program: the entries in the order of their keys.
mod Sort
mod Tree
mod Lex
mod Entries
mod SortBy
mod Pairs
mod Sets
pub use Sort.*
pub use Tree.*
pub use Entries.*
pub use SortBy.*
pub use Pairs.*
pub use Sets.*
unfoldable pub use Sets.{put_in}
unfoldable pub use SortBy.{sort_by, insert_by, sort_with, insert_with}
unfoldable pub use Sort.{sort, insert_sorted}
unfoldable pub use Tree.{upsert, lookup}
pub use Lex.*
unfoldable pub use Lex.{lex_le}
