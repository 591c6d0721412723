-- ===== src/Orchestrator/Directories.antt =====
-- The directories of the sites, `get_site_directory_path` of orchestrator/orchestrator/files.py.
use Prim.Native.Char.{code}
use text.Mathlib.TextLemmas.{append_cancel_left, append_assoc, nil-append, cons-append}
use director.Prelude.{
  ℕ, zero, suc, ◌+◌, ◌-◌, ◌*◌, ◌/◌, ◌%◌, ◌≤◌, ◌<◌, ◌≡◌, refl, ap, sym, ◌∙◌, String, false, ◌||◌,
  Bool-cases, eqb, ltb, ltb→lt, inl, inr, arith, if◌then◌else◌,
}
use director.Prelude.Text.{◌⊕◌, digit, decimal, str}
use director.Helper.Commands.{is_absolute}
use director.Orchestrator.Files.{
  is_empty, ends_with_slash, join_path, two_digits, get_site_directory_path,
}

-- A name that joins to a path with a slash before and behind it.
pub record IsSegment (s : String) : Type 0 where
  pub full : is_empty s ≡ false
  pub closed : ends_with_slash s ≡ false
  pub relative : is_absolute s ≡ false

is_empty-append : (s t : String) → is_empty t ≡ false → is_empty (s ⊕ t) ≡ false
is_empty-append String.[] t h = rw (nil-append t) h
is_empty-append (String.◌∷◌ c s) t h = rw (cons-append c s t) refl

ends_with_slash-append :
    (s t : String) → is_empty t ≡ false → ends_with_slash (s ⊕ t) ≡ ends_with_slash t
ends_with_slash-append String.[] t h = rw (nil-append t) refl
ends_with_slash-append (String.◌∷◌ c s) t h =
    rw (cons-append c s t, is_empty-append s t h) (ends_with_slash-append s t h)

is_absolute-append : (s t : String) → is_empty s ≡ false → is_absolute (s ⊕ t) ≡ is_absolute s
is_absolute-append String.[] t h = ground arith
is_absolute-append (String.◌∷◌ c s) t h = rw (cons-append c s t) refl

append-IsSegment : (s t : String) → IsSegment s → IsSegment t → IsSegment (s ⊕ t)
append-IsSegment s t h k = record {
  full = is_empty-append s t k.full;
  closed = ends_with_slash-append s t k.full ∙ k.closed;
  relative = is_absolute-append s t h.full ∙ h.relative;
}

digit-IsSegment : (d : ℕ) → IsSegment (digit d)
digit-IsSegment zero = record { full = refl; closed = refl; relative = refl }
digit-IsSegment (suc zero) = record { full = refl; closed = refl; relative = refl }
digit-IsSegment (suc (suc zero)) = record { full = refl; closed = refl; relative = refl }
digit-IsSegment (suc (suc (suc zero))) = record { full = refl; closed = refl; relative = refl }
digit-IsSegment (suc (suc (suc (suc zero)))) = record {
  full = refl;
  closed = refl;
  relative = refl;
}
digit-IsSegment (suc (suc (suc (suc (suc zero))))) = record {
  full = refl;
  closed = refl;
  relative = refl;
}
digit-IsSegment (suc (suc (suc (suc (suc (suc zero)))))) = record {
  full = refl;
  closed = refl;
  relative = refl;
}
digit-IsSegment (suc (suc (suc (suc (suc (suc (suc zero))))))) = record {
  full = refl;
  closed = refl;
  relative = refl;
}
digit-IsSegment (suc (suc (suc (suc (suc (suc (suc (suc zero)))))))) = record {
  full = refl;
  closed = refl;
  relative = refl;
}
digit-IsSegment (suc (suc (suc (suc (suc (suc (suc (suc (suc n))))))))) = record {
  full = refl;
  closed = refl;
  relative = refl;
}

-- The two numbers of a text of digits with a slash between them.
read_pair : String → ℕ × ℕ → ℕ × ℕ
read_pair String.[] st = st
read_pair (String.◌∷◌ c s) (x, y) =
    read_pair s (if eqb (code c) b'/' then (y, 0) else (x, y * 10 + (code c - 48)))

read_pair-append : (s t : String) (st : ℕ × ℕ) → read_pair (s ⊕ t) st ≡ read_pair t (read_pair s st)
unfolding read_pair
read_pair-append String.[] t st = rw (nil-append t) refl
read_pair-append (String.◌∷◌ c s) t (x, y) =
    rw (cons-append c s t)
      (read_pair-append s t (if eqb (code c) b'/' then (y, 0) else (x, y * 10 + (code c - 48))))

read_pair-digit : (d x y : ℕ) → d < 10 → read_pair (digit d) (x, y) ≡ (x, y * 10 + d)
unfolding read_pair
read_pair-digit zero x y h = refl
read_pair-digit (suc zero) x y h = refl
read_pair-digit (suc (suc zero)) x y h = refl
read_pair-digit (suc (suc (suc zero))) x y h = refl
read_pair-digit (suc (suc (suc (suc zero)))) x y h = refl
read_pair-digit (suc (suc (suc (suc (suc zero))))) x y h = refl
read_pair-digit (suc (suc (suc (suc (suc (suc zero)))))) x y h = refl
read_pair-digit (suc (suc (suc (suc (suc (suc (suc zero))))))) x y h = refl
read_pair-digit (suc (suc (suc (suc (suc (suc (suc (suc zero)))))))) x y h = refl
read_pair-digit (suc (suc (suc (suc (suc (suc (suc (suc (suc zero))))))))) x y h = refl
read_pair-digit (suc (suc (suc (suc (suc (suc (suc (suc (suc (suc n)))))))))) x y h = ground arith

read_pair-decimal : (fuel n x : ℕ) → n < fuel → read_pair (decimal fuel n) (x, 0) ≡ (x, n)
unfolding decimal
read_pair-decimal zero n x h = ground arith
read_pair-decimal (suc fuel) n x h = elim (Bool-cases (ltb n 10)) [
  | inl small ↦
      let e : 0 * 10 + n ≡ n = omega arith in
      rw (small, read_pair-digit n x 0 (ltb→lt n 10 small), e) refl
  | inr large ↦
      let l : 10 ≤ n = ground arith in
      let e : n / 10 * 10 + n % 10 ≡ n = omega arith in
      rw
        (
          large,
          read_pair-append (decimal fuel (n / 10)) (digit (n % 10)) (x, 0),
          read_pair-decimal fuel (n / 10) x (omega arith),
          read_pair-digit (n % 10) x (n / 10) (omega arith),
          e,
        )
        refl
]

decimal-IsSegment : (fuel n : ℕ) → n < fuel → IsSegment (decimal fuel n)
unfolding decimal
decimal-IsSegment zero n h = ground arith
decimal-IsSegment (suc fuel) n h = elim (Bool-cases (ltb n 10)) [
  | inl small ↦ rw small (digit-IsSegment n)
  | inr large ↦
      let l : 10 ≤ n = ground arith in
      rw large (
        append-IsSegment _ _ (decimal-IsSegment fuel (n / 10) (omega arith))
          (digit-IsSegment (n % 10)))
]

two_digits-IsSegment : (n : ℕ) → IsSegment (two_digits n)
unfolding str
two_digits-IsSegment n = elim (Bool-cases (ltb n 10)) [
  | inl small ↦
      rw small
        (append-IsSegment "0" _ (digit-IsSegment 0) (decimal-IsSegment (n + 1) n (omega arith)))
  | inr large ↦ rw large (decimal-IsSegment (n + 1) n (omega arith))
]

read_pair-two_digits : (n x : ℕ) → read_pair (two_digits n) (x, 0) ≡ (x, n)
unfolding str read_pair
read_pair-two_digits n x = elim (Bool-cases (ltb n 10)) [
  | inl small ↦
      rw (small, read_pair-append "0" (decimal (n + 1) n) (x, 0))
        (read_pair-decimal (n + 1) n x (omega arith))
  | inr large ↦ rw large (read_pair-decimal (n + 1) n x (omega arith))
]

-- What stands before the names that are joined to a path.
abbrev base : String → String
base d = if is_empty d || ends_with_slash d then d else d ⊕ "/"

join_path-IsSegment : (d s : String) → IsSegment s → join_path d s ≡ base d ⊕ s
join_path-IsSegment d s h = rw h.relative (elim (Bool-cases (is_empty d || ends_with_slash d)) [
  | inl e ↦ rw e refl
  | inr e ↦ rw e (sym (append_assoc d "/" s))
])

base-append : (d s : String) → IsSegment s → base (d ⊕ s) ≡ d ⊕ s ⊕ "/"
base-append d s h =
    rw (is_empty-append d s h.full, ends_with_slash-append d s h.full, h.closed)
      (append_assoc d s "/")

path-parts :
    (sites_directory : String) (site_id : ℕ)
    → get_site_directory_path sites_directory site_id
      ≡ base sites_directory ⊕ (two_digits (site_id / 100) ⊕ "/" ⊕ two_digits (site_id % 100))
unfolding get_site_directory_path
path-parts d site_id =
    let a = two_digits (site_id / 100) in
    let b = two_digits (site_id % 100) in
    let ha : IsSegment a = two_digits-IsSegment (site_id / 100) in
    let hb : IsSegment b = two_digits-IsSegment (site_id % 100) in
    rw
      (join_path-IsSegment d a ha, join_path-IsSegment (base d ⊕ a) b hb, base-append (base d) a ha)
      (append_assoc (base d) (a ⊕ "/") b ∙ ap (λ t. base d ⊕ t) (append_assoc a "/" b))

read_pair-parts : (n m : ℕ) → read_pair (two_digits n ⊕ "/" ⊕ two_digits m) (0, 0) ≡ (n, m)
unfolding read_pair
read_pair-parts n m =
    rw
      (
        read_pair-append (two_digits n) ("/" ⊕ two_digits m) (0, 0),
        read_pair-two_digits n 0,
        read_pair-append "/" (two_digits m) (0, n),
      )
      (read_pair-two_digits m n)

-- No two sites share a directory, whatever the setting `SITES_DIRECTORY` is.
pub get_site_directory_path-injective :
    (sites_directory : String) (i j : ℕ)
    → get_site_directory_path sites_directory i ≡ get_site_directory_path sites_directory j
    → i ≡ j
get_site_directory_path-injective d i j h =
    let tails : two_digits (i / 100) ⊕ "/" ⊕ two_digits (i % 100)
        ≡ two_digits (j / 100) ⊕ "/" ⊕ two_digits (j % 100) =
      append_cancel_left (base d) _ _ (sym (path-parts d i) ∙ h ∙ path-parts d j) in
    let pairs : (i / 100, i % 100) ≡ (j / 100, j % 100) =
      sym (read_pair-parts (i / 100) (i % 100))
      ∙ ap (λ t. read_pair t (0, 0)) tails
      ∙ read_pair-parts (j / 100) (j % 100) in
    let hundreds : i / 100 ≡ j / 100 = ap (λ p. p.0) pairs in
    let rest : i % 100 ≡ j % 100 = ap (λ p. p.1) pairs in omega arith
