-- ===== src/Cpio/Odc/Path.antt =====
-- Paths inside an archive: `normalize_archive_path` of odc.rs, and the directories of a path, by
-- `split('/')` and `join("/")`.
pub mod Prefixes
use apple_platform_rs.Base.{
  ℕ, zero, suc, Bool, true, false, List, [], ◌∷◌, ◌++◌, ◌==◌, if◌then◌else◌, take, length, Bytes,
}

-- `split(sep)`: the part in front of the first separator, and the others.
unfoldable pub split : ℕ → Bytes → Bytes × List Bytes
split sep [] = ([], [])
split sep (b ∷ bytes) =
    let rest = split sep bytes in if b == sep then ([], rest.0 ∷ rest.1) else (b ∷ rest.0, rest.1)

-- `join(sep)`
unfoldable pub join : ℕ → List Bytes → Bytes
join sep [] = []
join sep (part ∷ []) = part
join sep (part ∷ next ∷ parts) = part ++ (sep ∷ join sep (next ∷ parts))

-- `starts_with("./")`
unfoldable pub is_relative : Bytes → Bool
is_relative (a ∷ b ∷ path) = elim (a == b'.') [ true ↦ b == b'/' | false ↦ false ]
is_relative _ = false

unfoldable pub normalize_archive_path : Bytes → Bytes
normalize_archive_path path = if is_relative path then path else b'.' ∷ b'/' ∷ path

-- The parts in front of `idx`, joined, for `count` indices from `idx` on.
unfoldable pub prefixes : ℕ → ℕ → List Bytes → List Bytes
prefixes zero idx parts = []
prefixes (suc count) idx parts = join b'/' (take idx parts) ∷ prefixes count (suc idx) parts

unfoldable pub parent_directories : Bytes → List Bytes
parent_directories path =
    prefixes (length (split b'/' path).1) 1 ((split b'/' path).0 ∷ (split b'/' path).1)
