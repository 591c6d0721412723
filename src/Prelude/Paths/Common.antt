-- ===== src/Prelude/Paths/Common.antt =====
-- When one path lies below another, as `os.path.commonpath` tells it.
use director.Prelude.Lists.{Bytes, eq_bytes, eq_bytes-eq, eq_bytes_refl, All}
use director.Prelude.Tests.{Bool-cases}
use mathlib.Core.Path.{◌≡◌, refl, sym, ap, ◌∙◌}
use mathlib.Core.Logic.{inl, inr}
use mathlib.Core.Bool.{true}
use mathlib.Core.Option.{some}
use mathlib.Core.List.{List, [], ◌∷◌, ◌++◌}
use native.Mathlib.Omega.{arith}
use director.Prelude.Paths.{slash, join, is_absolute, names, common, commonpath}
use director.Prelude.Paths.Laws.{IsName, names-join, names-IsName}

-- The second path, with further names after it.
abbrev pub IsBelow : Bytes → Bytes → List Bytes → Type 0
IsBelow path dir rest = names path ≡ names dir ++ rest

common-first : (xs ys : List Bytes) → common xs ys ≡ ys → (rest : List Bytes) × (xs ≡ ys ++ rest)
common-first xs [] e = (xs, refl)
common-first [] (y ∷ ys) e = absurd (ground arith)
common-first (x ∷ xs) (y ∷ ys) e = elim (Bool-cases (eq_bytes x y)) [
  | inl f ↦
      let g : x ∷ common xs ys ≡ y ∷ ys = rw f at e in
      let (rest, h) = common-first xs ys (cc g) in (rest, rw (h, eq_bytes-eq x y f) refl)
  | inr f ↦ absurd (ground (arith, rw f at e))
]

common-append : (ys rest : List Bytes) → common (ys ++ rest) ys ≡ ys
common-append [] [] = refl
common-append [] (x ∷ xs) = refl
common-append (y ∷ ys) rest = rw (eq_bytes_refl y, common-append ys rest) refl

common-IsName : (xs ys : List Bytes) → All IsName xs → All IsName (common xs ys)
common-IsName [] ys h = tt
common-IsName (x ∷ xs) [] h = tt
common-IsName (x ∷ xs) (y ∷ ys) (h, hs) = elim (Bool-cases (eq_bytes x y)) [
  | inl f ↦ rw f (h, common-IsName xs ys hs)
  | inr f ↦ rw f tt
]

common-names :
    (a b dir : Bytes)
    → names b ≡ common (names a) (names dir)
    → b ≡ dir
    → (rest : List Bytes) × IsBelow a dir rest
common-names a b dir e f = common-first (names a) (names dir) (sym e ∙ ap names f)

-- What `commonpath([a, dir]) == dir` says.
pub commonpath-IsBelow :
    (a dir : Bytes) → commonpath a dir ≡ some dir → (rest : List Bytes) × IsBelow a dir rest
commonpath-IsBelow a dir e =
    let k = names-join _ (common-IsName (names a) (names dir) (names-IsName a)) in
    elim (Bool-cases (is_absolute a)) [
      | inl f ↦ elim (Bool-cases (is_absolute dir)) [
        | inl g ↦
            let h : some (slash ∷ join (common (names a) (names dir))) ≡ some dir =
              rw (f, g, commonpath) at e in
            common-names a (slash ∷ join (common (names a) (names dir))) dir k (cc h)
        | inr g ↦ absurd (ground (arith, rw (f, g, commonpath) at e))
      ]
      | inr f ↦ elim (Bool-cases (is_absolute dir)) [
        | inl g ↦ absurd (ground (arith, rw (f, g, commonpath) at e))
        | inr g ↦
            let h : some (join (common (names a) (names dir))) ≡ some dir =
              rw (f, g, commonpath) at e in
            common-names a (join (common (names a) (names dir))) dir k (cc h)
      ]
    ]

-- From the root, a path below a directory has the directory in common with it.
pub commonpath_below :
    (a dir : Bytes) (rest : List Bytes)
    → is_absolute a ≡ true
    → is_absolute dir ≡ true
    → IsBelow a dir rest
    → commonpath a dir ≡ some (slash ∷ join (names dir))
commonpath_below a dir rest f g h =
    rw (f, g, commonpath)
      (ap (λ l. some (slash ∷ join l))
        (ap (λ l. common l (names dir)) h ∙ common-append (names dir) rest))
