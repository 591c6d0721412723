-- ===== src/Docs.antt =====
-- manager/director/apps/docs/utils.py: `url_to_path` and `find_static_file`. Paths and URLs are lists
-- of characters; `docs_dir` is `settings.DIRECTOR_DOCS_DIR`.
pub mod Urls
pub mod Complete
pub mod Links
pub mod Page
pub mod Fresh
pub mod History
pub mod View
mod Tests
use director.Prelude.{
  Bytes, Bool, true, false, not, ◌||◌, Option, none, some, List, [], ◌∷◌, eq_bytes, any,
  if◌then◌else◌,
}
use director.Prelude.Paths.{
  pardir, curdir, split, rstrip, normpath, os_join, commonpath, starts_with,
}

-- The path of a page; none; or the ValueError of `commonpath`.
pub data Found : Type 0 where
  found : (path : Bytes) → Found
  missing value_error : Found

-- `os.path.commonpath([path, dir]) == dir`; nothing where it raises.
abbrev pub is_within : Bytes → Bytes → Option Bool
is_within path dir = elim (commonpath path dir) [
  | none ↦ none
  | some common ↦ some (eq_bytes common dir)
]

abbrev pub is_hidden : Bytes → Bool
is_hidden part = starts_with curdir part

abbrev pub base_path : (docs_dir url : Bytes) → Bytes
base_path docs_dir url = normpath (os_join (normpath docs_dir) (rstrip url))

unfoldable pub url_to_path : (docs_dir url : Bytes) → Found
url_to_path docs_dir url =
    let base = base_path docs_dir url in
    if any (λ part. eq_bytes part pardir) (split url)
    then missing
    else elim (is_within base (normpath docs_dir)) [
      | none ↦ value_error
      | some false ↦ missing
      | some true ↦ if any is_hidden (split (rstrip url)) then missing else found base
    ]

unfoldable pub find_static_file : (docs_dir url : Bytes) → Found
unfolding url_to_path
find_static_file docs_dir url = elim (url_to_path docs_dir url) [
  | missing ↦ missing
  | value_error ↦ value_error
  | found path ↦ elim (is_within path (normpath docs_dir)) [
    | none ↦ value_error
    | some false ↦ missing
    | some true ↦ found path
  ]
]
