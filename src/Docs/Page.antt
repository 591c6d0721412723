-- ===== src/Docs/Page.antt =====
-- manager/director/apps/docs/utils.py: `load_doc_page`, with the disk as it is during the call.
use director.Prelude.{
  Bytes, Bool, true, false, not, ◌&&◌, Option, none, some, List, [], ◌∷◌, ◌++◌, eq_bytes,
  if◌then◌else◌, ◌≡◌, ◌⊎◌, ℕ, ltb,
}
use director.Prelude.Paths.{slash, rstrip, normpath, os_join}
use director.Docs.{found, missing, value_error, is_within, url_to_path}
use director.Docs.Links.{UrlLibrary, rewrite_markdown_link, basename, md}

abbrev pub Meta : Type 0
Meta = List (Bytes × List Bytes)

-- What `load_doc_page` asks the operating system; `read` is none where `open` raises.
pub record Disk : Type 0 where
  pub islink : Bytes → Bool
  pub readlink : Bytes → Bytes
  pub exists : Bytes → Bool
  pub realpath : Bytes → Bytes
  pub mtime : Bytes → ℕ
  pub read : Bytes → Option Bytes

-- A rendered page, with the time at which it was put into the cache, after it was read and rendered.
pub record Entry : Type 0 where
  pub meta : Meta
  pub html : Bytes
  pub time : ℕ

-- Django's cache: what is read was set under that key, and may be gone.
pub record Cache : Type 1 where
  pub State : Type 0
  pub get : Bytes → State → Option Entry
  pub set : Bytes → Entry → State → State
  pub get-set :
      (key key' : Bytes) (e e' : Entry) (s : State)
      → get key' (set key e s) ≡ some e'
      → ((key ≡ key') × (e ≡ e')) ⊎ (get key' s ≡ some e')

-- What is fixed: `settings.DIRECTOR_DOCS_DIR`, the modification time of utils.py, and how Markdown with a
-- page's name is turned into metadata and HTML that is cleaned.
pub record Setup : Type 0 where
  pub docs_dir : Bytes
  pub utils_file_mtime : ℕ
  pub urls : UrlLibrary
  pub convert : (base_page_name text : Bytes) → Meta × Bytes

-- The metadata and the HTML, if the page was found; or an exception.
pub data Loaded : Type 0 where
  loaded : (meta : Meta) (html : Option Bytes) → Loaded
  crashed : Loaded

-- "README.md"
abbrev pub readme : Bytes
readme = 82 ∷ 69 ∷ 65 ∷ 68 ∷ 77 ∷ 69 ∷ md

-- "index"
abbrev index : Bytes
index = 105 ∷ 110 ∷ 100 ∷ 101 ∷ 120 ∷ []

-- "Redirect"
abbrev pub redirect : Bytes
redirect = 82 ∷ 101 ∷ 100 ∷ 105 ∷ 114 ∷ 101 ∷ 99 ∷ 116 ∷ []

-- "docs:" + path
abbrev pub cache_name : Bytes → Bytes
cache_name path = 100 ∷ 111 ∷ 99 ∷ 115 ∷ 58 ∷ path

abbrev pub absent : Loaded
absent = loaded [] none

abbrev pub potential_paths : Bytes → List (Bytes × Bytes)
potential_paths base_path = (base_path ++ md, []) ∷ (os_join base_path (index ++ md), index) ∷ []

abbrev pub base_page_name : Bytes → Bytes → Bytes
base_page_name page extra_part = rstrip (page ++ slash ∷ extra_part)

-- `stamped` is what `time.time()` says when a page has been rendered.
module _ (S : Setup) (C : Cache) (disk : Disk) (stamped : ℕ) where
  -- Read and convert the file, and keep the result with the time that it is then.
  unfoldable pub render : (name path : Bytes) → C.State → Loaded × C.State
  render name path cache = elim (disk.read path) [
    | none ↦ (crashed, cache)
    | some text ↦
        let (meta, html) = S.convert name text in
        (
          loaded meta (some html),
          C.set (cache_name path) (record { meta = meta; html = html; time = stamped }) cache,
        )
  ]

  abbrev pub is_current : Bytes → Entry → Bool
  is_current path e = ltb (disk.mtime path) e.time && ltb S.utils_file_mtime e.time

  unfoldable pub fetch : (name path : Bytes) → C.State → Loaded × C.State
  unfolding render
  fetch name path cache = elim (C.get (cache_name path) cache) [
    | none ↦ render name path cache
    | some e ↦
        if is_current path e then (loaded e.meta (some e.html), cache) else render name path cache
  ]

  -- The body of the loop; none is `continue`.
  unfoldable pub attempt : (page path extra_part : Bytes) → C.State → Option (Loaded × C.State)
  unfolding fetch rewrite_markdown_link
  attempt page path extra_part cache =
      let name = base_page_name page extra_part in
      let url = rewrite_markdown_link S.urls (disk.readlink path) name false in
      let real = disk.realpath path in
      if disk.islink path
      then some (loaded ((redirect, url ∷ []) ∷ []) (some []), cache)
      else (if not (disk.exists path)
          then none
          else (if eq_bytes (basename real) readme
              then none
              else elim (is_within real (normpath S.docs_dir)) [
                | none ↦ some (crashed, cache)
                | some false ↦ none
                | some true ↦ some (fetch name real cache)
              ]))

  unfoldable pub load_first :
      (page : Bytes) (paths : List (Bytes × Bytes)) → C.State → Loaded × C.State
  unfolding attempt
  load_first page [] cache = (absent, cache)
  load_first page ((path, extra_part) ∷ paths) cache =
      let rest = load_first page paths cache in
      elim (attempt page path extra_part cache) [ none ↦ rest | some result ↦ result ]

  unfoldable pub load_doc_page : (page : Bytes) → C.State → Loaded × C.State
  unfolding url_to_path load_first
  load_doc_page page cache = elim (url_to_path S.docs_dir page) [
    | value_error ↦ (crashed, cache)
    | missing ↦ (absent, cache)
    | found base ↦ load_first page (potential_paths base) cache
  ]
