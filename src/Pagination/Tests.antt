-- ===== src/Pagination/Tests.antt =====
-- Runs of manager/director/utils/pagination.py and the theorems at concrete inputs.
use director.Prelude.{
  ℕ, ◌+◌, ◌-◌, ◌*◌, ◌≡◌, refl, true, false, List, [], ◌∷◌, arith, ltb, eqb, if◌then◌else◌, some,
  none,
}
use director.Prelude.Int.{pos}
use director.Pagination.{Paginator, Options, number, text, paginate, clamp_page}
use director.Pagination.Links.{IsPaginator, shows, shows-paginate}
use director.Pagination.Items.{pages_partition, pages_up_to}

-- Five items, one to a page.
abbrev five : Paginator
five = record {
  num_pages = 5;
  has_previous = λ p. ltb 1 p;
  has_next = λ p. ltb p 5;
  previous_page_number = λ p. p - 1;
  next_page_number = λ p. p + 1;
  start_index = λ p. if eqb 5 0 then 0 else 1 * (p - 1) + 1;
  end_index = λ p. if eqb p 5 then 5 else p * 1;
}

five-IsPaginator : IsPaginator five 5 1
five-IsPaginator = record {
  pages_pos = omega arith;
  pages_enough = omega arith;
  pages_needed = λ p h. omega arith;
  previous = λ p. refl;
  next = λ p. refl;
  previous_number = λ p. refl;
  next_number = λ p. refl;
  start = λ p. refl;
  end = λ p. refl;
}

abbrev defaults : Options
defaults = record {
  num_start = 2;
  num_end = 2;
  num_around = 1;
  current_link = false;
  prev_text = "<";
  next_text = ">";
  spacer_text = "...";
  always_show_prev_text = true;
  always_show_next_text = true;
}

abbrev tens : List ℕ
tens = 10 ∷ 20 ∷ 30 ∷ 40 ∷ 50 ∷ []

paginate_first : paginate five defaults tens (pos 1) ≡ (
  10 ∷ [],
  (text "<", none)
      ∷ (number 1, none)
      ∷ (number 2, some 2)
      ∷ (text "...", none)
      ∷ (number 4, some 4)
      ∷ (number 5, some 5)
      ∷ (text ">", some 2)
      ∷ [],
)
unfolding paginate clamp_page
paginate_first = refl

-- With `num_start` 4 the fourth page is not shown on the first, though it is among the first four.
not_shown : shows 3 (paginate five (record defaults { num_start = 4 }) tens (pos 1)).1 ≡ false
unfolding paginate clamp_page
not_shown = refl

shows-paginate_example : shows 3 (paginate five defaults tens (pos 9)).1 ≡ false
unfolding clamp_page
shows-paginate_example = shows-paginate five tens 1 five-IsPaginator defaults (pos 9) 3 5 refl

pages_partition_example : pages_up_to five tens 5 ≡ tens
pages_partition_example = pages_partition five tens 1 five-IsPaginator
