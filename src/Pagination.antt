-- ===== src/Pagination.antt =====
-- manager/director/utils/pagination.py: the links of a paginated list and the items of a page.
pub mod Links
pub mod Items
mod Tests
use director.Prelude.{
  ℕ, zero, suc, ◌+◌, ◌-◌, min, max, Bool, String, Option, none, some, List, [], ◌∷◌, ◌++◌, map, ltb,
  take, drop, if◌then◌else◌,
}
use director.Prelude.Int.{ℤ, pos, negsuc}

-- `django.core.paginator.Paginator` and the `Page` that it returns for a page number.
pub record Paginator : Type 0 where
  pub num_pages : ℕ
  pub has_previous : ℕ → Bool
  pub has_next : ℕ → Bool
  pub previous_page_number : ℕ → ℕ
  pub next_page_number : ℕ → ℕ
  pub start_index : ℕ → ℕ
  pub end_index : ℕ → ℕ

-- A displayed text: `number i` is `str(i)`.
pub data Label : Type 0 where
  number : ℕ → Label
  text : String → Label

abbrev pub Link : Type 0
Link = Label × Option ℕ

-- The keyword arguments.
pub record Options : Type 0 where
  pub num_start : ℕ
  pub num_end : ℕ
  pub num_around : ℕ
  pub current_link : Bool
  pub prev_text : String
  pub next_text : String
  pub spacer_text : String
  pub always_show_prev_text : Bool
  pub always_show_next_text : Bool

range_from : ℕ → ℕ → List ℕ
range_from a zero = []
range_from a (suc n) = a ∷ range_from (a + 1) n

-- Python's `range(a, b)`.
range : ℕ → ℕ → List ℕ
unfolding range_from
range a b = range_from a (b - a)

-- One `page_links.append((str(i), i))` for each `i` of a range.
abbrev number_link : ℕ → Link
number_link i = (number i, some i)

number_links : ℕ → ℕ → List Link
unfolding range
number_links a b = map number_link (range a b)

-- `max(1, min(paginator.num_pages, page_num))`
pub clamp_page : Paginator → ℤ → ℕ
clamp_page pg (pos n) = max 1 (min pg.num_pages n)
clamp_page pg (negsuc n) = 1

-- `if b: page_links.append(l)`
append_if : Bool → Link → List Link
append_if b l = if b then l ∷ [] else []

module _ (pg : Paginator) (o : Options) where
  -- The links in front of the current page. `-` stops at 0, where Python's range is empty too.
  pub links_before : ℕ → List Link
  unfolding number_links append_if
  links_before page =
      (if pg.has_previous page
        then (text o.prev_text, some (pg.previous_page_number page))
          ∷ (number_links 1 (min (o.num_start + 1) (page - o.num_around))
              ++ append_if (ltb (o.num_start + 1) (page - o.num_around)) (text o.spacer_text, none))
        else append_if o.always_show_prev_text (text o.prev_text, none))
      ++ number_links (max (page - o.num_around) 1) page

  pub links_after : ℕ → List Link
  unfolding number_links append_if
  links_after page =
      number_links (page + 1) (min (page + o.num_around) pg.num_pages + 1)
      ++ (if pg.has_next page
          then append_if (ltb (page + o.num_around) (pg.num_pages - o.num_end))
              (text o.spacer_text, none)
            ++ (number_links (max (pg.num_pages - o.num_end) (page + o.num_around) + 1)
                  (pg.num_pages + 1)
                ++ (text o.next_text, some (pg.next_page_number page)) ∷ [])
          else append_if o.always_show_next_text (text o.next_text, none))

  pub page_links : ℕ → List Link
  unfolding links_before links_after
  page_links page =
      links_before page
      ++ ((number page, if o.current_link then some page else none) ∷ links_after page)

-- `items[max(page.start_index() - 1, 0) : page.end_index()]`
pub page_items {ℓ} : {A : Type ℓ} → Paginator → List A → ℕ → List A
page_items pg items page =
    let start = pg.start_index page - 1 in drop start (take (pg.end_index page) items)

pub paginate {ℓ} : {A : Type ℓ} → Paginator → Options → List A → ℤ → List A × List Link
unfolding page_items page_links
paginate pg o items page_num =
    let page = clamp_page pg page_num in (page_items pg items page, page_links pg o page)
