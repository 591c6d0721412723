-- ===== src/Docs/Tests.antt =====
-- Runs of manager/director/apps/docs/utils.py.
use director.Prelude.{
  Bytes, true, false, Option, none, some, List, [], ◌∷◌, ◌++◌, ◌≡◌, refl, inl, inr, ℕ, eq_bytes,
  if◌then◌else◌, arith, Bool-cases, eq_bytes-eq, ◌⊎◌,
}
use director.Prelude.Paths.{slash, dot, normpath, names, commonpath, curdir, pardir}
use director.Docs.{found, missing, url_to_path, find_static_file}
use director.Docs.Urls.{IsPublic, url_to_path-IsPublic}
use director.Docs.Complete.{url_to_path-visible}
use director.Docs.Links.{UrlLibrary, extension, rewritten_path, md}
use director.Docs.Page.{Disk, Entry, Cache, Setup, loaded, load_doc_page, cache_name}
use director.Docs.View.{redirect_page, find_page, IsSafe, doc_page_view, doc_page_view-IsSafe}
use director.Docs.History.{
  World, Steps, loads, edits, waits, stop, next, IsAnswer, load_doc_page-fresh,
}

-- "a", "b", "c"
abbrev a : Bytes
a = 97 ∷ []

abbrev b : Bytes
b = 98 ∷ []

abbrev in_dir : Bytes → Bytes → Bytes
in_dir x y = x ++ slash ∷ y

-- "/a"
abbrev docs : Bytes
docs = slash ∷ a

-- "//a/./b//../b/" is normalized to "//a/b", "a/../.." to "..", and the empty path to ".".
normpath_test :
    (normpath
        (slash ∷ slash ∷ in_dir a (in_dir curdir (in_dir b (slash ∷ in_dir pardir (in_dir b [])))))
      ≡ slash ∷ slash ∷ in_dir a b)
    × (normpath (in_dir a (in_dir pardir pardir)) ≡ pardir)
    × (normpath [] ≡ curdir)
normpath_test = (refl, refl, refl)

commonpath_test :
    (commonpath (in_dir docs b) docs ≡ some docs)
    × (commonpath a docs ≡ none)
    × (commonpath docs (slash ∷ b) ≡ some (slash ∷ []))
commonpath_test = (refl, refl, refl)

-- "b/", "/a/b" and "" are found; "../a", ".b" and "/b" are not.
url_to_path_test :
    (url_to_path docs (in_dir b []) ≡ found (in_dir docs b))
    × (url_to_path docs (in_dir docs b) ≡ found (in_dir docs b))
    × (url_to_path docs [] ≡ found docs)
    × (url_to_path docs (in_dir pardir a) ≡ missing)
    × (url_to_path docs (dot ∷ b) ≡ missing)
    × (url_to_path docs (slash ∷ b) ≡ missing)
unfolding url_to_path
url_to_path_test = (refl, refl, refl, refl, refl, refl)

-- "a.md" has an extension, "." and ".md" have none.
extension_test : (extension (a ++ md) ≡ md) × (extension curdir ≡ []) × (extension md ≡ [])
extension_test = (refl, refl, refl)

-- In the page "a/b", "a.md" leads to "/a/a/", "../b" to "/b/" and "/b" to "/b/".
rewritten_path_test :
    (rewritten_path (a ++ md) (in_dir a b) ≡ slash ∷ in_dir a (in_dir a []))
    × (rewritten_path (in_dir pardir b) (in_dir a b) ≡ slash ∷ in_dir b [])
    × (rewritten_path (slash ∷ b) (in_dir a b) ≡ slash ∷ in_dir b [])
unfolding rewritten_path
rewritten_path_test = (refl, refl, refl)

url_to_path-IsPublic_example : IsPublic docs (in_dir docs b)
unfolding url_to_path
url_to_path-IsPublic_example = url_to_path-IsPublic docs (in_dir b []) (in_dir docs b) refl refl

abbrev FoundBoth : Bytes → Bytes → List Bytes → Type 0
FoundBoth dir url parts =
    (path : Bytes) × (url_to_path dir url ≡ found path)
    × (find_static_file dir url ≡ found path)
    × (names path ≡ parts)

url_to_path-visible_example : FoundBoth docs (in_dir a b) (a ∷ a ∷ b ∷ [])
url_to_path-visible_example = url_to_path-visible docs (in_dir a b) refl refl refl

-- A library that knows only paths.
abbrev urls : UrlLibrary
urls = record {
  urlsplit = λ url. record { scheme = []; netloc = []; path = url; query = []; fragment = [] };
  urlunsplit = λ parts. parts.path;
  reverse_page = λ url. slash ∷ url;
  index = slash ∷ [];
}

-- Markdown that puts the name of the page before its text.
abbrev setup : Setup
setup = record {
  docs_dir = docs;
  utils_file_mtime = 0;
  urls = urls;
  convert = λ name text. ([], name ++ text);
}

abbrev find_entry : Bytes → List (Bytes × Entry) → Option Entry
find_entry key [] = none
find_entry key ((key', e) ∷ entries) = if eq_bytes key' key then some e else find_entry key entries

find_entry-set :
    (key key' : Bytes) (e e' : Entry) (s : List (Bytes × Entry))
    → find_entry key' ((key, e) ∷ s) ≡ some e'
    → ((key ≡ key') × (e ≡ e')) ⊎ (find_entry key' s ≡ some e')
find_entry-set key key' e e' s h = elim (Bool-cases (eq_bytes key key')) [
  | inl f ↦ let k : some e ≡ some e' = rw f at h in inl (eq_bytes-eq key key' f, cc k)
  | inr f ↦ inr (rw f at h)
]

abbrev cache : Cache
cache = record {
  State = List (Bytes × Entry);
  get = find_entry;
  set = λ key e s. (key, e) ∷ s;
  get-set = find_entry-set;
}

-- Every file exists, and holds this text.
abbrev disk_with : Bytes → ℕ → Disk
disk_with text time = record {
  islink = λ _. false;
  readlink = λ path. path;
  exists = λ _. true;
  realpath = λ path. path;
  mtime = λ _. time;
  read = λ _. some text;
}

abbrev world : Disk → ℕ → List (Bytes × Entry) → World setup cache
world disk now entries = record { disk = disk; now = now; cache = entries }

-- A page that was loaded from time 4 to time 5.
abbrev first_load : List (Bytes × Entry)
first_load = (cache_name (in_dir docs b ++ md), record { meta = []; html = b ++ a; time = 5 }) ∷ []

first_load_test :
    load_doc_page setup cache (disk_with a 3) 5 b [] ≡ (loaded [] (some (b ++ a)), first_load)
unfolding load_doc_page
first_load_test = refl

-- The page is taken from the cache at time 6, and is made anew after an edit at time 7.
cached_test :
    (load_doc_page setup cache (disk_with a 3) 6 b first_load
      ≡ (loaded [] (some (b ++ a)), first_load))
    × ((load_doc_page setup cache (disk_with b 7) 8 b first_load).0 ≡ loaded [] (some (b ++ b)))
unfolding load_doc_page
cached_test = (refl, refl)

-- A file that is edited at time 4, when it has been read and the entry is not yet stamped, is older than the
-- entry: the old page is served.
stale_page :
    (load_doc_page setup cache (disk_with b 4) 6 b first_load).0 ≡ loaded [] (some (b ++ a))
unfolding load_doc_page
stale_page = refl

-- It was loaded from time 4 to time 5, and edited at time 7.
loaded_then_edited :
    Steps setup cache (world (disk_with a 3) 4 []) (world (disk_with b 7) 7 first_load)
unfolding load_doc_page
loaded_then_edited =
    next _ (world (disk_with a 3) 7 first_load) _
      (next _ (world (disk_with a 3) 5 first_load) _
        (next _ (world (disk_with a 3) 4 []) _ (stop (world (disk_with a 3) 4 []))
          (loads b (world (disk_with a 3) 4 []) 5 (omega arith)))
        (waits (world (disk_with a 3) 5 first_load) 7 (omega arith)))
      (edits (world (disk_with a 3) 7 first_load) (disk_with b 7) (λ _. inr (omega arith)))

load_doc_page-fresh_example :
    IsAnswer setup cache
      (disk_with b 7)
      b
      (load_doc_page setup cache (disk_with b 7) 8 b first_load).0
load_doc_page-fresh_example =
    load_doc_page-fresh setup cache refl (world (disk_with a 3) 4 [])
      (world (disk_with b 7) 7 first_load) b 8 (omega arith) (λ path. refl) loaded_then_edited

-- "/" is redirected to itself, and "a//b" to "a/b/".
doc_page_view_test :
    ((doc_page_view setup cache (disk_with a 3) (λ _. true) 5 (slash ∷ []) []).0
      ≡ redirect_page (slash ∷ []))
    × ((doc_page_view setup cache (disk_with a 3) (λ _. true) 5 (in_dir a (slash ∷ b)) []).0
        ≡ redirect_page (in_dir a (in_dir b [])))
unfolding doc_page_view find_page
doc_page_view_test = (refl, refl)

doc_page_view-IsSafe_example :
    IsSafe setup cache
      (disk_with a 3)
      (λ _. true)
      5
      (doc_page_view setup cache (disk_with a 3) (λ _. true) 5 (a ++ dot ∷ b) []).0
doc_page_view-IsSafe_example =
    doc_page_view-IsSafe setup cache (disk_with a 3) (λ _. true) 5 refl (a ++ dot ∷ b) []
