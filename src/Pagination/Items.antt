-- ===== src/Pagination/Items.antt =====
-- The items of manager/director/utils/pagination.py: the pages partition the list.
use native.Mathlib.Nat.{zero-mul}
use director.Prelude.{
  ◌∙◌, ap, ℕ, zero, suc, ◌+◌, ◌-◌, ◌*◌, ◌≤◌, ◌<◌, ◌≡◌, refl, true, false, List, [], ◌∷◌, ◌++◌,
  arith, eqb, if◌then◌else◌, length, take, drop,
}
use director.Pagination.{Paginator, page_items}
use director.Pagination.Links.{IsPaginator}

module _ {ℓ} {A : Type ℓ} where
  -- The items from place `i` on, up to place `j`.
  abbrev pub slice : ℕ → ℕ → List A → List A
  slice i j xs = drop i (take j xs)

  take-all : (n : ℕ) (xs : List A) → length xs ≤ n → take n xs ≡ xs
  take-all zero [] h = refl
  take-all zero (x ∷ xs) h = absurd (omega arith)
  take-all (suc n) [] h = refl
  take-all (suc n) (x ∷ xs) h = rw (take-all n xs (omega arith))

  slice-append : (i j : ℕ) (xs : List A) → i ≤ j → take i xs ++ slice i j xs ≡ take j xs
  slice-append zero j xs h = refl
  slice-append (suc i) zero xs h = absurd (omega arith)
  slice-append (suc i) (suc j) [] h = refl
  slice-append (suc i) (suc j) (x ∷ xs) h = rw (slice-append i j xs (omega arith))

  -- The items of the pages 1 to n, one page after the other.
  abbrev pub pages_up_to : Paginator → List A → ℕ → List A
  pages_up_to pg items zero = []
  pages_up_to pg items (suc n) = pages_up_to pg items n ++ page_items pg items (suc n)

  drop-nil : (n : ℕ) → drop {A = A} n [] ≡ []
  drop-nil zero = refl
  drop-nil (suc n) = refl

  take-nil : (n : ℕ) → take {A = A} n [] ≡ []
  take-nil zero = refl
  take-nil (suc n) = refl

  -- On an empty list the start index is 0, which makes no difference.
  slice_start :
      (xs : List A) (i j : ℕ)
      → slice ((if eqb (length xs) 0 then 0 else i + 1) - 1) j xs ≡ slice i j xs
  slice_start [] i j = rw take-nil (rw drop-nil)
  slice_start (x ∷ xs) i j = ap (λ k. slice k j (x ∷ xs)) (ground arith)

mul_step : (n per_page : ℕ) → per_page * (suc n - 1) ≡ n * per_page
mul_step n per_page = grind arith

module _ {ℓ} {A : Type ℓ} (pg : Paginator) (items : List A) (per_page : ℕ)
    (laws : IsPaginator pg (length items) per_page) where
  page_items-slice :
      (n : ℕ)
      → page_items pg items (suc n)
        ≡ slice
            (n * per_page)
            (if eqb (suc n) pg.num_pages then length items else suc n * per_page)
            items
  unfolding page_items
  page_items-slice n = rw (laws.start, laws.end, mul_step) (slice_start items (n * per_page) _)

  pages_up_to-take : (n : ℕ) → n < pg.num_pages → pages_up_to pg items n ≡ take (n * per_page) items
  pages_up_to-take zero h = rw zero-mul
  pages_up_to-take (suc n) h =
      let inner : eqb (suc n) pg.num_pages ≡ false = ground arith in
      rw (pages_up_to-take n (omega arith), page_items-slice, inner)
        (slice-append (n * per_page) (suc n * per_page) items (grind arith))

  all_pages : (m : ℕ) → m ≡ pg.num_pages → pages_up_to pg items m ≡ items
  all_pages zero e = absurd (omega (arith, laws.pages_pos))
  all_pages (suc n) e =
      let outer : eqb (suc n) pg.num_pages ≡ true = ground arith in
      rw (pages_up_to-take n (omega arith), page_items-slice, outer)
        (slice-append (n * per_page) (length items) items (laws.pages_needed n (omega arith))
          ∙ take-all (length items) items (omega arith))

  -- The pages 1 to the last, put together, are the items: none is lost and none is shown twice.
  pub pages_partition : pages_up_to pg items pg.num_pages ≡ items
  pages_partition = all_pages pg.num_pages refl
