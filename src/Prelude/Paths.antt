-- ===== src/Prelude/Paths.antt =====
-- What the program uses of the standard library's posixpath, on paths as lists of characters.
pub mod Laws
pub mod Common
use director.Prelude.Lists.{Bytes, eq_bytes, filter_by}
use director.Prelude.Tests.{eqb, if◌then◌else◌}
use Prim.Native.Nat.{ℕ}
use mathlib.Core.Bool.{Bool, true, false, not, ◌&&◌, ◌||◌}
use mathlib.Core.Option.{Option, none, some}
use mathlib.Core.List.{List, [], ◌∷◌, ◌++◌}

abbrev pub slash : ℕ
slash = 47

abbrev pub dot : ℕ
dot = 46

abbrev pub curdir : Bytes
curdir = dot ∷ []

abbrev pub pardir : Bytes
pardir = dot ∷ dot ∷ []

-- A character before the first of the parts.
abbrev pub push : ℕ → List Bytes → List Bytes
push c [] = (c ∷ []) ∷ []
push c (part ∷ parts) = (c ∷ part) ∷ parts

-- `path.split("/")`
abbrev pub split : Bytes → List Bytes
split [] = [] ∷ []
split (c ∷ cs) = let parts = split cs in if eqb c slash then [] ∷ parts else push c parts

-- `"/".join(parts)`
abbrev pub join : List Bytes → Bytes
join [] = []
join (part ∷ parts) = elim parts [ [] ↦ part | _ ↦ part ++ slash ∷ join parts ]

abbrev pub starts_with : Bytes → Bytes → Bool
starts_with [] path = true
starts_with (x ∷ xs) [] = false
starts_with (x ∷ xs) (y ∷ ys) = eqb x y && starts_with xs ys

-- `path.endswith("/")`
abbrev pub ends_slash : Bytes → Bool
ends_slash [] = false
ends_slash (c ∷ cs) = let rest = ends_slash cs in elim cs [ [] ↦ eqb c slash | _ ↦ rest ]

-- `path.rstrip("/")`
abbrev pub rstrip : Bytes → Bytes
rstrip [] = []
rstrip (c ∷ cs) =
    let rest = rstrip cs in
    elim rest [ [] ↦ if eqb c slash then [] else c ∷ [] | d ∷ ds ↦ c ∷ d ∷ ds ]

-- `path.lstrip("/")`
abbrev pub lstrip : Bytes → Bytes
lstrip [] = []
lstrip (c ∷ cs) = let rest = lstrip cs in if eqb c slash then rest else c ∷ cs

abbrev pub is_skipped : Bytes → Bool
is_skipped part = eq_bytes part [] || eq_bytes part curdir

abbrev pub is_null {ℓ} : {A : Type ℓ} → List A → Bool
is_null [] = true
is_null (x ∷ xs) = false

-- `parts and parts[-1] == ".."`
abbrev pub ends_pardir : List Bytes → Bool
ends_pardir [] = false
ends_pardir (part ∷ parts) =
    let rest = ends_pardir parts in elim parts [ [] ↦ eq_bytes part pardir | _ ↦ rest ]

-- `parts.pop()`
abbrev pub pop : List Bytes → List Bytes
pop [] = []
pop (part ∷ parts) = let rest = pop parts in elim parts [ [] ↦ [] | _ ↦ part ∷ rest ]

-- The body of the loop of `normpath`: `done` is its `new_comps`.
abbrev pub step : (rooted : Bool) (done : List Bytes) (part : Bytes) → List Bytes
step rooted done part =
    if is_skipped part
    then done
    else (if not (eq_bytes part pardir) || (not rooted && is_null done) || ends_pardir done
        then done ++ part ∷ []
        else pop done)

abbrev pub normalize : (rooted : Bool) (done parts : List Bytes) → List Bytes
normalize rooted done [] = done
normalize rooted done (part ∷ parts) = normalize rooted (step rooted done part) parts

-- The slashes that `normpath` keeps at the front.
abbrev pub root_of : Bytes → Bytes
root_of path =
    if not (starts_with (slash ∷ []) path)
    then []
    else (if starts_with (slash ∷ slash ∷ []) path
          && not (starts_with (slash ∷ slash ∷ slash ∷ []) path)
        then slash ∷ slash ∷ []
        else slash ∷ [])

abbrev pub or_curdir : Bytes → Bytes
or_curdir [] = curdir
or_curdir (c ∷ cs) = c ∷ cs

abbrev pub normpath : Bytes → Bytes
normpath path =
    or_curdir (root_of path ++ join (normalize (not (is_null (root_of path))) [] (split path)))

abbrev pub is_absolute : Bytes → Bool
is_absolute path = starts_with (slash ∷ []) path

-- `os.path.join(a, b)`
abbrev pub os_join : Bytes → Bytes → Bytes
os_join a b =
    if is_absolute b then b else (if is_null a || ends_slash a then a ++ b else a ++ slash ∷ b)

-- The names in a path, without the empty ones and the dots.
abbrev pub names : Bytes → List Bytes
names path = filter_by (λ part. not (is_skipped part)) (split path)

abbrev pub common : List Bytes → List Bytes → List Bytes
common [] ys = []
common (x ∷ xs) [] = []
common (x ∷ xs) (y ∷ ys) = let rest = common xs ys in if eq_bytes x y then x ∷ rest else []

-- `os.path.commonpath([a, b])`; it raises ValueError on an absolute path and a relative one.
abbrev pub commonpath : Bytes → Bytes → Option Bytes
commonpath a b = elim (is_absolute a) [
  | true ↦ elim (is_absolute b) [
    | true ↦ some (slash ∷ join (common (names a) (names b)))
    | false ↦ none
  ]
  | false ↦ elim (is_absolute b) [ true ↦ none | false ↦ some (join (common (names a) (names b))) ]
]
