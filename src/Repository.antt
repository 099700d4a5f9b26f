-- ===== src/Repository.antt =====
-- crates/ovid-repository/src/lib.rs: the snapshot that the scanners read. Walking a directory and
-- running git are input and output.
use ovid.Prelude.{
  ℕ, Bool, Option, List, [], ◌∷◌, Text, keep_if, last_piece, is_some, length, text_eq, ◌+◌, ◌%◌,
  ◌^◌,
}
use ovid.Prelude.Order.{lookup, keys}
use ovid.Core.Digest.{Digest}

pub record FileEntry : Type 0 where
  pub size : ℕ
  pub digest : Digest

pub record RepoSnapshot : Type 0 where
  pub canonical_url : Text
  pub revision : Text
  pub ref_requested : Option Text
  pub source_digest : Digest
  pub root : Text
  pub files : List (Text × FileEntry)
  pub acquired_at : Text

unfoldable pub file_count : RepoSnapshot → ℕ
file_count s = length s.files

sizes : List (Text × FileEntry) → ℕ
sizes [] = 0
sizes ((path, entry) ∷ files) = entry.size + sizes files

-- A sum of `u64` wraps.
unfoldable pub total_size : RepoSnapshot → ℕ
unfolding sizes
total_size s = sizes s.files % 2 ^ 64

unfoldable pub find_files_named : RepoSnapshot → Text → List Text
find_files_named s name = keep_if (λ p. text_eq.beq (last_piece b'/' p) name) (keys s.files)

unfoldable pub has_file : RepoSnapshot → Text → Bool
has_file s relative = is_some (lookup relative s.files)
