-- ===== src/Docs/Complete.antt =====
-- `url_to_path` of manager/director/apps/docs/utils.py finds every path that is not hidden.
use director.Prelude.{
  Bytes, Bool, true, false, ◌||◌, some, List, [], ◌∷◌, ◌++◌, eq_bytes, eq_bytes_refl, any, ◌≡◌,
  refl, sym, ap, ◌∙◌, inl, inr, Bool-cases, arith, ℕ, zero, suc, eqb, append-nil,
}
use director.Prelude.Paths.{
  pardir, split, rstrip, join, normpath, os_join, is_absolute, names, normalize, slash, root_of,
}
use director.Prelude.Paths.Laws.{
  All-first, split-IsFree, normalize-IsPlain, split-append, names-join, normpath-from_root,
  os_join-is_absolute,
}
use director.Prelude.Paths.Common.{IsBelow, commonpath_below}
use director.Docs.{found, is_within, is_hidden, base_path, url_to_path, find_static_file}
use director.Docs.Urls.{pardir-is_hidden, base_path-relative}

abbrev slashes : ℕ → Bytes
slashes zero = []
slashes (suc n) = slash ∷ slashes n

rstrip_cons-slashes :
    (c : ℕ) (cs rest : Bytes)
    → rstrip cs ≡ rest
    → (n : ℕ) × (cs ≡ rest ++ slashes n)
    → (n : ℕ) × (c ∷ cs ≡ rstrip (c ∷ cs) ++ slashes n)
rstrip_cons-slashes c cs [] f (n, e) = elim (Bool-cases (eqb c slash)) [
  | inl g ↦
      let h : c ≡ slash = ground arith in
      let k : slash ∷ cs ≡ slashes (suc n) = ap (λ l. slash ∷ l) e in (suc n, rw (f, h) k)
  | inr g ↦ let k : c ∷ cs ≡ c ∷ slashes n = ap (λ l. c ∷ l) e in (n, rw (f, g) k)
]
rstrip_cons-slashes c cs (d ∷ ds) f (n, e) =
    let k : c ∷ cs ≡ c ∷ d ∷ (ds ++ slashes n) = ap (λ l. c ∷ l) e in (n, rw f k)

rstrip-slashes : (path : Bytes) → (n : ℕ) × (path ≡ rstrip path ++ slashes n)
rstrip-slashes [] = (0, refl)
rstrip-slashes (c ∷ cs) = rstrip_cons-slashes c cs (rstrip cs) refl (rstrip-slashes cs)

any-append : (p : Bytes → Bool) (xs ys : List Bytes) → any p (xs ++ ys) ≡ (any p xs || any p ys)
any-append p [] ys = refl
any-append p (x ∷ xs) ys = elim (Bool-cases (p x)) [
  | inl e ↦ rw e refl
  | inr e ↦ rw (e, any-append p xs ys) refl
]

slashes-pardir : (n : ℕ) → any (λ part. eq_bytes part pardir) (split (slashes n)) ≡ false
slashes-pardir zero = refl
slashes-pardir (suc n) = slashes-pardir n

or-false : (b : Bool) → (b || false) ≡ b
or-false true = refl
or-false false = refl

append-pardir :
    (path : Bytes) (n : ℕ)
    → any (λ part. eq_bytes part pardir) (split (path ++ slashes n))
      ≡ any (λ part. eq_bytes part pardir) (split path)
append-pardir path zero = rw (append-nil path) refl
append-pardir path (suc n) =
    ap (any (λ part. eq_bytes part pardir)) (split-append path (slashes n))
    ∙ any-append _ (split path) (split (slashes n))
    ∙ rw (slashes-pardir n) (or-false _)

visible-pardir :
    (parts : List Bytes)
    → any is_hidden parts ≡ false
    → any (λ part. eq_bytes part pardir) parts ≡ false
visible-pardir [] e = refl
visible-pardir (p ∷ ps) e =
    let f : is_hidden p ≡ false = ground arith in
    let g : any is_hidden ps ≡ false = ground arith in
    rw (pardir-is_hidden p f) (visible-pardir ps g)

-- No part of the URL is "..".
url-pardir :
    (url : Bytes)
    → any is_hidden (split (rstrip url)) ≡ false
    → any (λ part. eq_bytes part pardir) (split url) ≡ false
url-pardir url e =
    let (n, f) = rstrip-slashes url in
    ap (λ u. any (λ part. eq_bytes part pardir) (split u)) f
    ∙ append-pardir (rstrip url) n
    ∙ visible-pardir (split (rstrip url)) e

-- The directory as `commonpath` writes it.
normpath-join :
    (path : Bytes)
    → root_of path ≡ slash ∷ []
    → slash ∷ join (names (normpath path)) ≡ normpath path
normpath-join path e =
    let parts = normalize true [] (split path) in
    let shape : normpath path ≡ slash ∷ join parts = rw (e, normpath) refl in
    let plain = normalize-IsPlain [] (split path) tt (split-IsFree path) in
    let named = ap names shape ∙ names-join parts (All-first parts plain) in
    ap (λ l. slash ∷ join l) named ∙ sym shape

is_within_below :
    (path dir : Bytes) (rest : List Bytes)
    → is_absolute path ≡ true
    → is_absolute (normpath dir) ≡ true
    → root_of dir ≡ slash ∷ []
    → IsBelow path (normpath dir) rest
    → is_within path (normpath dir) ≡ some true
is_within_below path dir rest f g r below =
    rw (commonpath_below path (normpath dir) rest f g below, is_within)
      (ap some
        (ap (λ p. eq_bytes p (normpath dir)) (normpath-join dir r) ∙ eq_bytes_refl (normpath dir)))

root_of-is_absolute : (path : Bytes) → root_of path ≡ slash ∷ [] → is_absolute path ≡ true
root_of-is_absolute path e = elim (Bool-cases (is_absolute path)) [
  | inl f ↦ f
  | inr f ↦ absurd (ground (arith, rw (f, root_of) at e))
]

find_static_file-found :
    (docs_dir url path : Bytes)
    → url_to_path docs_dir url ≡ found path
    → is_within path (normpath docs_dir) ≡ some true
    → find_static_file docs_dir url ≡ found path
unfolding find_static_file
find_static_file-found docs_dir url path e within = rw (e, within, find_static_file) refl

-- A relative URL none of whose parts begins with a dot, whatever slashes it ends in, is found, both as
-- a page and as a static file; the names of its path are those of the documentation's directory with
-- those of the URL after them. The directory begins with one slash, or with more than two.
pub url_to_path-visible :
    (docs_dir url : Bytes)
    → root_of docs_dir ≡ slash ∷ []
    → is_absolute (rstrip url) ≡ false
    → any is_hidden (split (rstrip url)) ≡ false
    → (path : Bytes) × (url_to_path docs_dir url ≡ found path)
      × (find_static_file docs_dir url ≡ found path)
      × (names path ≡ names (normpath docs_dir) ++ names (rstrip url))
unfolding url_to_path
url_to_path-visible docs_dir url r f hidden =
    let root = root_of-is_absolute docs_dir r in
    let below = base_path-relative docs_dir url root f hidden in
    let base-root =
      (normpath-from_root (os_join (normpath docs_dir) (rstrip url)) (
        os_join-is_absolute (normpath docs_dir) (rstrip url)
          (normpath-from_root docs_dir root).1)).1 in
    let within =
      is_within_below (base_path docs_dir url) docs_dir (names (rstrip url)) base-root
        (normpath-from_root docs_dir root).1 r below in
    let e : url_to_path docs_dir url ≡ found (base_path docs_dir url) =
      rw (url-pardir url hidden, within, hidden) refl in
    (
      base_path docs_dir url,
      e,
      find_static_file-found docs_dir url (base_path docs_dir url) e within,
      below,
    )
