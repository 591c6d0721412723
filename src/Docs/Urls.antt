-- ===== src/Docs/Urls.antt =====
-- The paths that `url_to_path` of manager/director/apps/docs/utils.py gives.
use director.Prelude.{
  Bytes, Bool, true, false, none, some, List, [], ◌∷◌, ◌++◌, eq_bytes, eq_bytes-eq, any, filter_by,
  All, All-append, ◌≡◌, refl, sym, ap, ◌∙◌, ◌⊎◌, inl, inr, Bool-cases, Option-cases, arith, eqb,
}
use director.Prelude.Paths.{
  pardir, split, rstrip, normpath, os_join, commonpath, is_absolute, names,
}
use director.Prelude.Paths.Laws.{
  IsName, IsPlain, names-os_join, normpath-from_root, names-normpath-IsPlain, normpath_plain,
  os_join-is_absolute, names-IsName,
}
use director.Prelude.Paths.Common.{IsBelow, commonpath-IsBelow}
use director.Docs.{found, is_within, is_hidden, base_path, url_to_path}

abbrev IsVisible : Bytes → Type 0
IsVisible part = is_hidden part ≡ false

pub pardir-is_hidden : (part : Bytes) → IsVisible part → eq_bytes part pardir ≡ false
pardir-is_hidden [] h = refl
pardir-is_hidden (c ∷ cs) h = elim (Bool-cases (eqb c 46)) [
  | inl e ↦ absurd (ground arith)
  | inr e ↦ rw e refl
]

any-false : (p : Bytes → Bool) (xs : List Bytes) → any p xs ≡ false → All (λ x. p x ≡ false) xs
any-false p [] e = tt
any-false p (x ∷ xs) e = (ground arith, any-false p xs (ground arith))

kept-All :
    (P : Bytes → Type 0) (p : Bytes) (ps : List Bytes) (b : Bool)
    → P p
    → All P ps
    → All P (elim b [ true ↦ p ∷ ps | false ↦ ps ])
kept-All P p ps true h hs = (h, hs)
kept-All P p ps false h hs = hs

filter_by-All :
    (P : Bytes → Type 0) (test : Bytes → Bool) (xs : List Bytes)
    → All P xs
    → All P (filter_by test xs)
filter_by-All P test [] h = tt
filter_by-All P test (x ∷ xs) (h, hs) = kept-All P x _ (test x) h (filter_by-All P test xs hs)

All-append_right : (P : Bytes → Type 0) (xs ys : List Bytes) → All P (xs ++ ys) → All P ys
All-append_right P [] ys h = h
All-append_right P (x ∷ xs) ys (_, h) = All-append_right P xs ys h

visible-IsPlain : (parts : List Bytes) → All IsName parts → All IsVisible parts → All IsPlain parts
visible-IsPlain [] h k = tt
visible-IsPlain (p ∷ ps) (h, hs) (k, ks) = ((h, pardir-is_hidden p k), visible-IsPlain ps hs ks)

-- The names in a URL without hidden parts.
names-IsVisible : (url : Bytes) → any is_hidden (split url) ≡ false → All IsVisible (names url)
names-IsVisible url e = filter_by-All IsVisible _ (split url) (any-false is_hidden (split url) e)

names_visible-IsPlain : (url : Bytes) → any is_hidden (split url) ≡ false → All IsPlain (names url)
names_visible-IsPlain url e = visible-IsPlain (names url) (names-IsName url) (names-IsVisible url e)

pub is_within-cases :
    (path dir : Bytes)
    → (is_within path dir ≡ none)
      ⊎ (is_within path dir ≡ some false)
      ⊎ (is_within path dir ≡ some true)
is_within-cases path dir = elim (Option-cases (commonpath path dir)) [
  | inl e ↦ inl (rw (e, is_within) refl)
  | inr (c, e) ↦ elim (Bool-cases (eq_bytes c dir)) [
    | inl f ↦ inr (inr (rw (e, f, is_within) refl))
    | inr f ↦ inr (inl (rw (e, f, is_within) refl))
  ]
]

-- The checks that a path has passed.
abbrev Passed : Bytes → Bytes → Bytes → Type 0
Passed docs_dir url path =
    (is_within (base_path docs_dir url) (normpath docs_dir) ≡ some true)
    × (any is_hidden (split (rstrip url)) ≡ false)
    × (base_path docs_dir url ≡ path)

url_to_path-Passed :
    (docs_dir url path : Bytes) → url_to_path docs_dir url ≡ found path → Passed docs_dir url path
unfolding url_to_path
url_to_path-Passed docs_dir url path e =
    elim (Bool-cases (any (λ part. eq_bytes part pardir) (split url))) [
      | inl f ↦ absurd (ground (arith, rw f at e))
      | inr f ↦ elim (is_within-cases (base_path docs_dir url) (normpath docs_dir)) [
        | inl g ↦ absurd (ground (arith, rw (f, g) at e))
        | inr (inl g) ↦ absurd (ground (arith, rw (f, g) at e))
        | inr (inr g) ↦ elim (Bool-cases (any is_hidden (split (rstrip url)))) [
          | inl h ↦ absurd (ground (arith, rw (f, g, h) at e))
          | inr h ↦ (g, h, cc (rw (f, g, h) at e))
        ]
      ]
    ]

-- The names below the directory that a URL stands for.
pub base_path-relative :
    (docs_dir url : Bytes)
    → is_absolute docs_dir ≡ true
    → is_absolute (rstrip url) ≡ false
    → any is_hidden (split (rstrip url)) ≡ false
    → IsBelow (base_path docs_dir url) (normpath docs_dir) (names (rstrip url))
base_path-relative docs_dir url root f hidden =
    let joined = names-os_join (normpath docs_dir) (rstrip url) f in
    let plain =
      All-append IsPlain (names (normpath docs_dir)) (names (rstrip url))
        (names-normpath-IsPlain docs_dir root) (names_visible-IsPlain (rstrip url) hidden) in
    normpath_plain (os_join (normpath docs_dir) (rstrip url))
      (os_join-is_absolute (normpath docs_dir) (rstrip url) (normpath-from_root docs_dir root).1)
      (rw joined plain)
    ∙ joined

base_path-absolute :
    (docs_dir url : Bytes)
    → is_absolute (rstrip url) ≡ true
    → any is_hidden (split (rstrip url)) ≡ false
    → names (base_path docs_dir url) ≡ names (rstrip url)
base_path-absolute docs_dir url f hidden =
    let joined : os_join (normpath docs_dir) (rstrip url) ≡ rstrip url = rw (f, os_join) refl in
    ap (λ p. names (normpath p)) joined
    ∙ normpath_plain (rstrip url) f (names_visible-IsPlain (rstrip url) hidden)

pub is_within-IsBelow :
    (path dir : Bytes)
    → is_within path dir ≡ some true
    → (rest : List Bytes) × IsBelow path dir rest
is_within-IsBelow path dir e = elim (Option-cases (commonpath path dir)) [
  | inl f ↦ absurd (ground (arith, rw (f, is_within) at e))
  | inr (c, f) ↦
      let g : some (eq_bytes c dir) ≡ some true = rw (f, is_within) at e in
      commonpath-IsBelow path dir (f ∙ ap some (eq_bytes-eq c dir (cc g)))
]

-- The path of a URL lies below the directory of the documentation, with names that are not hidden.
pub IsPublic : Bytes → Bytes → Type 0
IsPublic docs_dir path =
    (rest : List Bytes) × IsBelow path (normpath docs_dir) rest
    × All (λ part. is_hidden part ≡ false) rest
    × All IsPlain (names path)

base_path-IsPublic :
    (docs_dir url : Bytes)
    → is_absolute docs_dir ≡ true
    → is_within (base_path docs_dir url) (normpath docs_dir) ≡ some true
    → any is_hidden (split (rstrip url)) ≡ false
    → IsPublic docs_dir (base_path docs_dir url)
unfolding IsPublic
base_path-IsPublic docs_dir url root within hidden =
    let seen = names-IsVisible (rstrip url) hidden in
    let plain =
      names-normpath-IsPlain (os_join (normpath docs_dir) (rstrip url)) (
        os_join-is_absolute (normpath docs_dir) (rstrip url)
          (normpath-from_root docs_dir root).1) in
    elim (Bool-cases (is_absolute (rstrip url))) [
      | inl f ↦
          let (rest, below) =
            is_within-IsBelow (base_path docs_dir url) (normpath docs_dir) within in
          let same = sym (base_path-absolute docs_dir url f hidden) ∙ below in
          let seen' : All IsVisible (names (normpath docs_dir) ++ rest) = rw (sym same) seen in
          (rest, below, All-append_right IsVisible (names (normpath docs_dir)) rest seen', plain)
      | inr f ↦ (names (rstrip url), base_path-relative docs_dir url root f hidden, seen, plain)
    ]

-- Whatever the URL, the path that `url_to_path` finds is the documentation's directory with names
-- after it, none of which begins with a dot, and no name in the path is "..". The directory is a path
-- from the root.
pub url_to_path-IsPublic :
    (docs_dir url path : Bytes)
    → is_absolute docs_dir ≡ true
    → url_to_path docs_dir url ≡ found path
    → IsPublic docs_dir path
url_to_path-IsPublic docs_dir url path root e =
    let (within, hidden, p) = url_to_path-Passed docs_dir url path e in
    rw (sym p) (base_path-IsPublic docs_dir url root within hidden)
