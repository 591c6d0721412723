-- ===== src/Prelude/Paths/Laws.antt =====
-- The names in the paths that posixpath's functions give.
use director.Prelude.Lists.{Bytes, eq_bytes, filter_by, IsFree, All, All-append}
use director.Prelude.Tests.{eqb, if◌then◌else◌, Bool-cases}
use Prim.Native.Nat.{ℕ}
use mathlib.Core.Path.{◌≡◌, refl, sym, ap, ◌∙◌}
use mathlib.Core.Logic.{◌⊎◌, inl, inr}
use mathlib.Core.Bool.{Bool, true, false, not}
use mathlib.Core.List.{List, [], ◌∷◌, ◌++◌, append_assoc, append-nil}
use native.Mathlib.Omega.{arith}
use director.Prelude.Paths.{
  slash, pardir, push, split, join, starts_with, ends_slash, is_skipped, ends_pardir, pop, step,
  normalize, root_of, normpath, is_absolute, os_join, names,
}

-- A name in a path: no slash in it, not empty and not a dot.
abbrev pub IsName : Bytes → Type 0
IsName part = IsFree slash part × (is_skipped part ≡ false)

-- One that is not ".." either.
abbrev pub IsPlain : Bytes → Type 0
IsPlain part = IsName part × (eq_bytes part pardir ≡ false)

pub All-first : (parts : List Bytes) → All IsPlain parts → All IsName parts
All-first [] _ = tt
All-first (p ∷ ps) ((h, _), hs) = (h, All-first ps hs)

pub split-NotNil : (path : Bytes) → (p : Bytes) × (ps : List Bytes) × (split path ≡ p ∷ ps)
split-NotNil [] = ([], [], refl)
split-NotNil (c ∷ cs) = elim (Bool-cases (eqb c slash)) [
  | inl e ↦ ([], split cs, rw e refl)
  | inr e ↦ let (p, ps, f) = split-NotNil cs in (c ∷ p, ps, rw (e, f) refl)
]

push-IsFree :
    (c : ℕ) (parts : List Bytes)
    → eqb c slash ≡ false
    → All (IsFree slash) parts
    → All (IsFree slash) (push c parts)
push-IsFree c [] e h = ((e, tt), tt)
push-IsFree c (part ∷ parts) e (h, hs) = ((e, h), hs)

split_part-IsFree :
    (c : ℕ) (parts : List Bytes) (b : Bool)
    → eqb c slash ≡ b
    → All (IsFree slash) parts
    → All (IsFree slash) (if b then [] ∷ parts else push c parts)
split_part-IsFree c parts true e h = (tt, h)
split_part-IsFree c parts false e h = push-IsFree c parts e h

pub split-IsFree : (path : Bytes) → All (IsFree slash) (split path)
split-IsFree [] = (tt, tt)
split-IsFree (c ∷ cs) = split_part-IsFree c (split cs) (eqb c slash) refl (split-IsFree cs)

-- Splitting at a slash that is there.
pub split-append : (a b : Bytes) → split (a ++ slash ∷ b) ≡ split a ++ split b
split-append [] b = refl
split-append (c ∷ cs) b = elim (Bool-cases (eqb c slash)) [
  | inl e ↦ rw (e, split-append cs b) refl
  | inr e ↦ let (p, ps, f) = split-NotNil cs in rw (e, split-append cs b, f) refl
]

split_free : (part : Bytes) → IsFree slash part → split part ≡ part ∷ []
split_free [] h = refl
split_free (c ∷ cs) (h, hs) = rw (h, split_free cs hs) refl

pub filter_by-append {ℓ} :
    {A : Type ℓ} (p : A → Bool) (xs ys : List A)
    → filter_by p (xs ++ ys) ≡ filter_by p xs ++ filter_by p ys
filter_by-append p [] ys = refl
filter_by-append p (x ∷ xs) ys = elim (Bool-cases (p x)) [
  | inl e ↦ simp (filter_by, e, filter_by-append p xs ys)
  | inr e ↦ simp (filter_by, e, filter_by-append p xs ys)
]

pub names-append : (a b : Bytes) → names (a ++ slash ∷ b) ≡ names a ++ names b
names-append a b = rw (split-append a b) (filter_by-append _ (split a) (split b))

names_name : (p : Bytes) → IsName p → names p ≡ p ∷ []
names_name p (free, kept) = rw (split_free p free) (simp (filter_by, kept))

pub names-join : (parts : List Bytes) → All IsName parts → names (join parts) ≡ parts
names-join [] h = refl
names-join (p ∷ []) (h, _) = names_name p h
names-join (p ∷ q ∷ ps) (h, hs) =
    names-append p (join (q ∷ ps)) ∙ rw (names_name p h, names-join (q ∷ ps) hs) refl

kept-IsName :
    (p : Bytes) (ps : List Bytes) (b : Bool)
    → is_skipped p ≡ b
    → IsFree slash p
    → All IsName ps
    → All IsName (elim (not b) [ true ↦ p ∷ ps | false ↦ ps ])
kept-IsName p ps true e h hs = hs
kept-IsName p ps false e h hs = ((h, e), hs)

filter_by-IsName :
    (parts : List Bytes)
    → All (IsFree slash) parts
    → All IsName (filter_by (λ part. not (is_skipped part)) parts)
filter_by-IsName [] h = tt
filter_by-IsName (p ∷ ps) (h, hs) = kept-IsName p _ (is_skipped p) refl h (filter_by-IsName ps hs)

pub names-IsName : (path : Bytes) → All IsName (names path)
names-IsName path = filter_by-IsName (split path) (split-IsFree path)

-- The parts that `normpath` skips do not count.
normalize-filter_by :
    (rooted : Bool) (done parts : List Bytes)
    → normalize rooted done parts
      ≡ normalize rooted done (filter_by (λ part. not (is_skipped part)) parts)
normalize-filter_by rooted done [] = refl
normalize-filter_by rooted done (p ∷ ps) = elim (Bool-cases (is_skipped p)) [
  | inl e ↦ simp (e, filter_by, normalize-filter_by rooted done ps)
  | inr e ↦
      let next = normalize-filter_by rooted (step rooted done p) ps in next ∙ simp (e, filter_by)
]

pub normalize-names :
    (rooted : Bool) (done : List Bytes) (path : Bytes)
    → normalize rooted done (split path) ≡ normalize rooted done (names path)
normalize-names rooted done path = normalize-filter_by rooted done (split path)

-- Names other than ".." are appended.
pub normalize_plain :
    (rooted : Bool) (done parts : List Bytes)
    → All IsPlain parts
    → normalize rooted done parts ≡ done ++ parts
normalize_plain rooted done [] h = sym (append-nil done)
normalize_plain rooted done (p ∷ ps) (((_, e), f), hs) =
    rw (e, f, normalize_plain rooted (done ++ p ∷ []) ps hs) (append_assoc done (p ∷ []) ps)

ends_pardir_plain : (parts : List Bytes) → All IsPlain parts → ends_pardir parts ≡ false
ends_pardir_plain [] h = refl
ends_pardir_plain (p ∷ []) ((_, f), _) = f
ends_pardir_plain (p ∷ q ∷ ps) (_, hs) = ends_pardir_plain (q ∷ ps) hs

pop-IsPlain : (parts : List Bytes) → All IsPlain parts → All IsPlain (pop parts)
pop-IsPlain [] h = tt
pop-IsPlain (p ∷ []) h = tt
pop-IsPlain (p ∷ q ∷ ps) (h, hs) = (h, pop-IsPlain (q ∷ ps) hs)

step-IsPlain :
    (done : List Bytes) (p : Bytes)
    → All IsPlain done
    → IsFree slash p
    → All IsPlain (step true done p)
step-IsPlain done p h free = elim (Bool-cases (is_skipped p)) [
  | inl e ↦ rw e h
  | inr e ↦ elim (Bool-cases (eq_bytes p pardir)) [
    | inl f ↦ rw (e, f, ends_pardir_plain done h) (pop-IsPlain done h)
    | inr f ↦ rw (e, f) (All-append IsPlain done (p ∷ []) h (((free, e), f), tt))
  ]
]

-- Nothing of a path from the root is "..".
pub normalize-IsPlain :
    (done parts : List Bytes)
    → All IsPlain done
    → All (IsFree slash) parts
    → All IsPlain (normalize true done parts)
normalize-IsPlain done [] h _ = h
normalize-IsPlain done (p ∷ ps) h (k, ks) =
    normalize-IsPlain (step true done p) ps (step-IsPlain done p h k) ks

is_absolute-cons : (path : Bytes) → is_absolute path ≡ true → (cs : Bytes) × (path ≡ slash ∷ cs)
is_absolute-cons [] e = absurd (ground arith)
is_absolute-cons (c ∷ cs) e = let f : c ≡ slash = ground arith in (cs, rw f refl)

root_of-cases :
    (path : Bytes)
    → is_absolute path ≡ true
    → (root_of path ≡ slash ∷ []) ⊎ (root_of path ≡ slash ∷ slash ∷ [])
root_of-cases path e = rw e (elim (Bool-cases (starts_with (slash ∷ slash ∷ []) path)) [
  | inl f ↦ elim (Bool-cases (starts_with (slash ∷ slash ∷ slash ∷ []) path)) [
    | inl g ↦ inl (rw (f, g) refl)
    | inr g ↦ inr (rw (f, g) refl)
  ]
  | inr f ↦ inl (rw f refl)
])

-- The path from the root that has these names.
pub normpath-from_root :
    (path : Bytes)
    → is_absolute path ≡ true
    → (names (normpath path) ≡ normalize true [] (names path))
      × (is_absolute (normpath path) ≡ true)
normpath-from_root path e =
    let k = normalize-IsPlain [] (split path) tt (split-IsFree path) in
    let named : names (join (normalize true [] (split path))) ≡ normalize true [] (names path) =
      names-join _ (All-first _ k) ∙ normalize-names true [] path in
    elim (root_of-cases path e) [
      | inl f ↦ (rw f named, rw f refl)
      | inr f ↦ (rw f named, rw f refl)
    ]

pub names-normpath-IsPlain :
    (path : Bytes) → is_absolute path ≡ true → All IsPlain (names (normpath path))
names-normpath-IsPlain path e =
    rw ((normpath-from_root path e).0, sym (normalize-names true [] path))
      (normalize-IsPlain [] (split path) tt (split-IsFree path))

ends_slash-cons : (path : Bytes) → ends_slash path ≡ true → (cs : Bytes) × (path ≡ cs ++ slash ∷ [])
ends_slash-cons [] e = absurd (ground arith)
ends_slash-cons (c ∷ []) e = ([], let f : c ≡ slash = ground arith in rw f refl)
ends_slash-cons (c ∷ d ∷ ds) e = let (cs, f) = ends_slash-cons (d ∷ ds) e in (c ∷ cs, rw f refl)

names-ends_slash : (a b : Bytes) → ends_slash a ≡ true → names (a ++ b) ≡ names a ++ names b
names-ends_slash a b e =
    let (ds, f) = ends_slash-cons a e in
    let joined : names ((ds ++ slash ∷ []) ++ b) ≡ names ds ++ names b =
      ap names (append_assoc ds (slash ∷ []) b) ∙ names-append ds b in
    let closed : names (ds ++ slash ∷ []) ≡ names ds = names-append ds [] ∙ append-nil (names ds) in
    ap (λ c. names (c ++ b)) f ∙ joined ∙ ap (λ l. l ++ names b) (sym closed ∙ ap names (sym f))

-- The names of a path that is not from the root come after those of the directory.
pub names-os_join : (a b : Bytes) → is_absolute b ≡ false → names (os_join a b) ≡ names a ++ names b
names-os_join [] b e = rw e refl
names-os_join (c ∷ cs) b e = rw e (elim (Bool-cases (ends_slash (c ∷ cs))) [
  | inl f ↦ rw f (names-ends_slash (c ∷ cs) b f)
  | inr f ↦ rw f (names-append (c ∷ cs) b)
])

os_join_root : (cs b : Bytes) → is_absolute b ≡ false → is_absolute (os_join (slash ∷ cs) b) ≡ true
os_join_root cs b e =
    rw e (elim (Bool-cases (ends_slash (slash ∷ cs))) [ inl f ↦ rw f refl | inr f ↦ rw f refl ])

pub os_join-is_absolute : (a b : Bytes) → is_absolute a ≡ true → is_absolute (os_join a b) ≡ true
os_join-is_absolute a b e = elim (Bool-cases (is_absolute b)) [
  | inl f ↦ rw (f, os_join) f
  | inr f ↦
      let (cs, g) = is_absolute-cons a e in
      ap (λ c. is_absolute (os_join c b)) g ∙ os_join_root cs b f
]

-- `normpath` keeps the names of a path from the root without "..".
pub normpath_plain :
    (path : Bytes)
    → is_absolute path ≡ true
    → All IsPlain (names path)
    → names (normpath path) ≡ names path
normpath_plain path e h = (normpath-from_root path e).0 ∙ normalize_plain true [] (names path) h
