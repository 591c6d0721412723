-- ===== src/Prelude/Lists.antt =====
-- Lists measured and indexed by native numbers, and predicates on lists by recursion.
use Prim.Native.Nat.{ℕ, zero, suc, ◌+◌, ◌≤◌}
use mathlib.Core.Path.{◌≡◌, refl}
use mathlib.Core.Bool.{Bool, true, false, ◌&&◌, ◌||◌}
use mathlib.Core.Logic.{◌⊎◌, inl, inr}
use mathlib.Core.List.{List, [], ◌∷◌, ◌++◌}
use mathlib.Core.Option.{Option, none, some}
use native.Mathlib.Omega.{arith}
use director.Prelude.Tests.{eqb, eqb_iff, if◌then◌else◌, Bool-cases}

abbrev pub Bytes : Type 0
Bytes = List ℕ

module _ {ℓ} {A : Type ℓ} where
  abbrev pub length : List A → ℕ
  length [] = 0
  length (x ∷ xs) = suc (length xs)

  abbrev pub get_elem? : List A → ℕ → Option A
  get_elem? [] i = none
  get_elem? (x ∷ xs) zero = some x
  get_elem? (x ∷ xs) (suc i) = get_elem? xs i

  abbrev pub take : ℕ → List A → List A
  take zero xs = []
  take (suc n) [] = []
  take (suc n) (x ∷ xs) = x ∷ take n xs

  abbrev pub drop : ℕ → List A → List A
  drop zero xs = xs
  drop (suc n) [] = []
  drop (suc n) (x ∷ xs) = drop n xs

  pub length-append : (xs ys : List A) → length (xs ++ ys) ≡ length xs + length ys
  length-append [] ys = omega arith
  length-append (x ∷ xs) ys = omega (arith, length-append xs ys)

  -- Cutting where two lists meet.
  pub take-append : (xs ys : List A) (n : ℕ) → length xs ≡ n → take n (xs ++ ys) ≡ xs
  take-append [] ys zero h = refl
  take-append [] ys (suc n) h = absurd (omega arith)
  take-append (x ∷ xs) ys zero h = absurd (omega arith)
  take-append (x ∷ xs) ys (suc n) h = rw (take-append xs ys n (omega arith))

  pub drop-append : (xs ys : List A) (n : ℕ) → length xs ≡ n → drop n (xs ++ ys) ≡ ys
  drop-append [] ys zero h = refl
  drop-append [] ys (suc n) h = absurd (omega arith)
  drop-append (x ∷ xs) ys zero h = absurd (omega arith)
  drop-append (x ∷ xs) ys (suc n) h = drop-append xs ys n (omega arith)

  abbrev pub any : (A → Bool) → List A → Bool
  any p [] = false
  any p (x ∷ xs) = p x || any p xs

  abbrev pub all : (A → Bool) → List A → Bool
  all p [] = true
  all p (x ∷ xs) = p x && all p xs

module _ {ℓ κ} {A : Type ℓ} (P : A → Type κ) where
  abbrev pub All : List A → Type κ
  All [] = Unit
  All (x ∷ xs) = P x × All xs

  pub All-append : (xs ys : List A) → All xs → All ys → All (xs ++ ys)
  All-append [] ys _ k = k
  All-append (x ∷ xs) ys (p, h) k = (p, All-append xs ys h k)

-- Membership with the place kept: the tactics take it apart.
abbrev pub In : {A : Type 0} → A → List A → Type 0
In a [] = ⊥
In a (x ∷ xs) = (a ≡ x) ⊎ In a xs

-- Strictly ascending, from `lo` on and below `hi`.
abbrev pub IsAscending : ℕ → List ℕ → ℕ → Type 0
IsAscending lo [] hi = lo ≤ hi
IsAscending lo (x ∷ xs) hi = (lo ≤ x) × IsAscending (x + 1) xs hi

-- The elements that pass a Boolean test.
abbrev pub filter_by {ℓ} : {A : Type ℓ} → (A → Bool) → List A → List A
filter_by p [] = []
filter_by p (x ∷ xs) = elim (p x) [ true ↦ x ∷ filter_by p xs | false ↦ filter_by p xs ]

-- What is before and after the first `separator`, if there is one.
abbrev pub split_first : ℕ → Bytes → Option (Bytes × Bytes)
split_first separator [] = none
split_first separator (c ∷ cs) =
    let rest = split_first separator cs in
    if eqb c separator
    then some ([], cs)
    else elim rest [ none ↦ none | some (line, more) ↦ some (c ∷ line, more) ]

-- No character of it is the separator.
abbrev pub IsFree : ℕ → Bytes → Type 0
IsFree separator [] = Unit
IsFree separator (c ∷ cs) = (eqb c separator ≡ false) × IsFree separator cs

pub split_first-append :
    (separator : ℕ) (line rest : Bytes)
    → IsFree separator line
    → split_first separator (line ++ separator ∷ rest) ≡ some (line, rest)
split_first-append separator [] rest h =
    let e : eqb separator separator ≡ true = ground arith in rw e refl
split_first-append separator (c ∷ cs) rest (h, hs) =
    rw (h, split_first-append separator cs rest hs) refl

abbrev pub eq_bytes : Bytes → Bytes → Bool
eq_bytes [] [] = true
eq_bytes (x ∷ xs) (y ∷ ys) = eqb x y && eq_bytes xs ys
eq_bytes _ _ = false

pub eq_bytes-eq : (xs ys : Bytes) → eq_bytes xs ys ≡ true → xs ≡ ys
eq_bytes-eq [] [] e = refl
eq_bytes-eq [] (y ∷ ys) e = ground arith
eq_bytes-eq (x ∷ xs) [] e = ground arith
eq_bytes-eq (x ∷ xs) (y ∷ ys) e = elim (Bool-cases (eqb x y)) [
  | inl h ↦ rw ((eqb_iff x y).0 h, eq_bytes-eq xs ys (rw h at e)) refl
  | inr h ↦ ground arith
]

pub eq_bytes_refl : (bytes : Bytes) → eq_bytes bytes bytes ≡ true
eq_bytes_refl [] = refl
eq_bytes_refl (c ∷ cs) = let e : eqb c c ≡ true = ground arith in rw (e, eq_bytes_refl cs) refl
