-- ===== src/Docs/Links.antt =====
-- manager/director/apps/docs/utils.py: `rewrite_markdown_link` and `add_url_docs_prefix`, and what
-- manager/director/apps/docs/views.py does with a URL before it loads a page.
use director.Prelude.{
  Bytes, Bool, true, not, ◌&&◌, List, [], ◌∷◌, ◌++◌, eq_bytes, eqb, if◌then◌else◌, ◌≡◌, refl, ◌∙◌,
  ◌⊎◌, inl, inr, Bool-cases, All, arith, append-nil,
}
use director.Prelude.Paths.{
  slash, dot, split, join, rstrip, lstrip, normpath, os_join, is_absolute, ends_slash, is_null,
  names,
}
use director.Prelude.Paths.Laws.{
  IsPlain, names-normpath-IsPlain, os_join-is_absolute, normpath-from_root, names-append,
}

-- `urllib.parse.SplitResult`
pub record SplitUrl : Type 0 where
  pub scheme : Bytes
  pub netloc : Bytes
  pub path : Bytes
  pub query : Bytes
  pub fragment : Bytes

-- urllib's `urlsplit` and `urlunsplit`, and Django's `reverse` of a page and of the index.
pub record UrlLibrary : Type 0 where
  pub urlsplit : Bytes → SplitUrl
  pub urlunsplit : SplitUrl → Bytes
  pub reverse_page : Bytes → Bytes
  pub index : Bytes

-- What comes after the last slash, as `os.path.basename` gives it.
abbrev pub last_part : List Bytes → Bytes
last_part [] = []
last_part (part ∷ parts) = let rest = last_part parts in elim parts [ [] ↦ part | _ ↦ rest ]

abbrev pub basename : Bytes → Bytes
basename path = last_part (split path)

abbrev lstrip_dots : Bytes → Bytes
lstrip_dots [] = []
lstrip_dots (c ∷ cs) = let rest = lstrip_dots cs in if eqb c dot then rest else c ∷ cs

-- From the last dot on.
abbrev last_dot : Bytes → Bytes
last_dot [] = []
last_dot (c ∷ cs) =
    let rest = last_dot cs in elim rest [ [] ↦ if eqb c dot then c ∷ cs else [] | d ∷ ds ↦ d ∷ ds ]

-- `os.path.splitext(path)[1]`
abbrev pub extension : Bytes → Bytes
extension path = last_dot (lstrip_dots (basename path))

-- ".md"
abbrev pub md : Bytes
md = 46 ∷ 109 ∷ 100 ∷ []

-- "mailto"
abbrev mailto : Bytes
mailto = 109 ∷ 97 ∷ 105 ∷ 108 ∷ 116 ∷ 111 ∷ []

abbrev pub strip : Bytes → Bytes
strip path = rstrip (lstrip path)

-- `path[:-3]`
abbrev pub without_md : Bytes → Bytes
without_md [] = []
without_md (c ∷ cs) =
    let rest = without_md cs in
    elim cs [ [] ↦ [] | _ ∷ ds ↦ elim ds [ [] ↦ [] | _ ∷ es ↦ elim es [ [] ↦ [] | _ ↦ c ∷ rest ] ] ]

-- A link to a page ends in one slash.
abbrev with_slash : Bytes → Bytes
with_slash path =
    if eq_bytes (extension path) md
    then rstrip (without_md path) ++ slash ∷ []
    else (if is_null (extension path) then rstrip path ++ slash ∷ [] else path)

-- `name.rsplit("/", 1)[0]`, or nothing where there is no slash.
abbrev all_but_last : List Bytes → List Bytes
all_but_last [] = []
all_but_last (part ∷ parts) =
    let rest = all_but_last parts in elim parts [ [] ↦ [] | _ ↦ part ∷ rest ]

abbrev parent : Bytes → Bytes
parent name = join (all_but_last (split name))

-- `os.path.join("/", parent_page, path)`, normalized.
abbrev from_parent : Bytes → Bytes → Bytes
from_parent name path = normpath (os_join (os_join (slash ∷ []) (parent name)) path)

-- With the slash that the link ended in.
abbrev closed_as : (old_path path : Bytes) → Bytes
closed_as old_path path =
    if not (eq_bytes path (slash ∷ [])) && ends_slash old_path then path ++ slash ∷ [] else path

abbrev made_absolute : Bytes → Bytes → Bytes
made_absolute name path = if is_absolute path then path else closed_as path (from_parent name path)

-- The path of a link of the page `base_page_name`.
unfoldable pub rewritten_path : (path base_page_name : Bytes) → Bytes
rewritten_path path base_page_name = made_absolute (strip base_page_name) (with_slash path)

names-slash : (path : Bytes) → names (path ++ slash ∷ []) ≡ names path
names-slash path = names-append path [] ∙ append-nil (names path)

append-is_absolute : (a b : Bytes) → is_absolute a ≡ true → is_absolute (a ++ b) ≡ true
append-is_absolute [] b e = absurd (ground arith)
append-is_absolute (c ∷ cs) b e = e

-- A path from the root without "..".
abbrev pub IsRooted : Bytes → Type 0
IsRooted path = (is_absolute path ≡ true) × All IsPlain (names path)

from_parent-IsRooted : (name path : Bytes) → IsRooted (from_parent name path)
from_parent-IsRooted name path =
    let base = os_join (os_join (slash ∷ []) (parent name)) path in
    let root =
      os_join-is_absolute (os_join (slash ∷ []) (parent name)) path
        (os_join-is_absolute (slash ∷ []) (parent name) refl) in
    ((normpath-from_root base root).1, names-normpath-IsPlain base root)

closed_as-IsRooted : (old_path path : Bytes) → IsRooted path → IsRooted (closed_as old_path path)
closed_as-IsRooted old_path path (root, plain) =
    elim (Bool-cases (not (eq_bytes path (slash ∷ [])) && ends_slash old_path)) [
      | inl f ↦ rw f (append-is_absolute path (slash ∷ []) root, rw (names-slash path) plain)
      | inr f ↦ rw f (root, plain)
    ]

made_absolute-IsRooted :
    (name path : Bytes)
    → ((is_absolute path ≡ true) × (made_absolute name path ≡ path))
      ⊎ IsRooted (made_absolute name path)
made_absolute-IsRooted name path = elim (Bool-cases (is_absolute path)) [
  | inl e ↦ inl (e, rw (e, made_absolute) refl)
  | inr e ↦
      let shape : made_absolute name path ≡ closed_as path (from_parent name path) =
        rw (e, made_absolute) refl in
      inr (
        rw shape (closed_as-IsRooted path (from_parent name path) (from_parent-IsRooted name path)))
]

-- Whatever the link and the page, the path that a link is rewritten to is from the root: it is the
-- link's own path, or one without "..".
pub rewritten_path-IsRooted :
    (path base_page_name : Bytes)
    → ((is_absolute (with_slash path) ≡ true)
        × (rewritten_path path base_page_name ≡ with_slash path))
      ⊎ IsRooted (rewritten_path path base_page_name)
unfolding rewritten_path
rewritten_path-IsRooted path base_page_name =
    made_absolute-IsRooted (strip base_page_name) (with_slash path)

module _ (L : UrlLibrary) where
  abbrev pub add_url_docs_prefix : Bytes → Bytes
  add_url_docs_prefix url = if is_null (lstrip url) then L.index else L.reverse_page (lstrip url)

  unfoldable pub is_internal : SplitUrl → Bool
  is_internal parts =
      not (eq_bytes parts.scheme mailto) && is_null parts.netloc && not (is_null parts.path)

  unfoldable pub rewrite_markdown_link :
      (link_url base_page_name : Bytes) (add_docs_prefix : Bool) → Bytes
  unfolding rewritten_path is_internal
  rewrite_markdown_link link_url base_page_name add_docs_prefix =
      let parts = L.urlsplit link_url in
      let path = rewritten_path parts.path base_page_name in
      if is_internal parts
      then L.urlunsplit
          (record parts { path = if add_docs_prefix then add_url_docs_prefix path else path })
      else link_url
