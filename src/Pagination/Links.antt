-- ===== src/Pagination/Links.antt =====
-- Which pages the links of manager/director/utils/pagination.py show, in which order, and where
-- they lead.
use mathlib.Core.Path.{ap₂}
use director.Prelude.{
  IsAscending, length, String, ◌∙◌, append-nil, ℕ, zero, suc, ◌+◌, ◌-◌, ◌*◌, ◌≤◌, ◌<◌, min, max,
  ◌≡◌, refl, Bool, true, false, ◌&&◌, ◌||◌, List, [], ◌∷◌, ◌++◌, map, Option, none, arith, ltb, leb,
  eqb, if◌then◌else◌, any, Bool-cases, inl, inr,
}
use director.Prelude.Int.{ℤ, pos, negsuc}
use director.Pagination.{
  clamp_page, paginate, Paginator, Label, number, text, Link, Options, range_from, number_link,
  number_links, links_before, append_if, links_after, page_links,
}

-- What Django documents of a `Paginator` over `count` items, `per_page` to a page, that allows an
-- empty first page.
pub record IsPaginator (pg : Paginator) (count per_page : ℕ) : Type 0 where
  pub pages_pos : 1 ≤ pg.num_pages
  pub pages_enough : count ≤ pg.num_pages * per_page
  pub pages_needed : (p : ℕ) → p < pg.num_pages → p * per_page ≤ count
  pub previous : (p : ℕ) → pg.has_previous p ≡ ltb 1 p
  pub next : (p : ℕ) → pg.has_next p ≡ ltb p pg.num_pages
  pub previous_number : (p : ℕ) → pg.previous_page_number p ≡ p - 1
  pub next_number : (p : ℕ) → pg.next_page_number p ≡ p + 1
  pub start : (p : ℕ) → pg.start_index p ≡ (if eqb count 0 then 0 else per_page * (p - 1) + 1)
  pub end : (p : ℕ) → pg.end_index p ≡ (if eqb p pg.num_pages then count else p * per_page)

abbrev is_number : ℕ → Label → Bool
is_number i (number j) = eqb i j
is_number i (text _) = false

-- Whether one of the links shows the number `i`.
abbrev pub shows : ℕ → List Link → Bool
shows i links = any (λ l. is_number i l.0) links

or_assoc : (a b c : Bool) → ((a || b) || c) ≡ (a || (b || c))
or_assoc true b c = refl
or_assoc false b c = refl

shows-append : (i : ℕ) (xs ys : List Link) → shows i (xs ++ ys) ≡ (shows i xs || shows i ys)
shows-append i [] ys = refl
shows-append i ((number j, t) ∷ xs) ys = ground (arith, shows-append i xs ys)
shows-append i ((text s, t) ∷ xs) ys = shows-append i xs ys

shows-range_from :
    (i a n : ℕ) → shows i (map number_link (range_from a n)) ≡ (leb a i && ltb i (a + n))
unfolding range_from
shows-range_from i a zero = ground arith
shows-range_from i a (suc n) = ground (arith, shows-range_from i (a + 1) n)

shows-number_links : (i a b : ℕ) → shows i (number_links a b) ≡ (leb a i && ltb i b)
unfolding number_links
shows-number_links i a b = ground (arith, shows-range_from i a (b - a))

shows-append_if :
    (i : ℕ) (b : Bool) (s : String) (t : Option ℕ) → shows i (append_if b (text s, t)) ≡ false
unfolding append_if
shows-append_if i true s t = refl
shows-append_if i false s t = refl

-- The numbers among the labels, in order.
abbrev pub numbers : List Link → List ℕ
numbers [] = []
numbers ((number i, t) ∷ links) = i ∷ numbers links
numbers ((text s, t) ∷ links) = numbers links

numbers-append : (xs ys : List Link) → numbers (xs ++ ys) ≡ numbers xs ++ numbers ys
numbers-append [] ys = refl
numbers-append ((number j, t) ∷ xs) ys = rw (numbers-append xs ys)
numbers-append ((text s, t) ∷ xs) ys = numbers-append xs ys

IsAscending-append :
    (lo : ℕ) (xs : List ℕ) (mid : ℕ) (ys : List ℕ) (hi : ℕ)
    → IsAscending lo xs mid
    → IsAscending mid ys hi
    → IsAscending lo (xs ++ ys) hi
IsAscending-append lo [] mid [] hi h k = omega arith
IsAscending-append lo [] mid (y ∷ ys) hi h k = (omega arith, k.1)
IsAscending-append lo (x ∷ xs) mid ys hi h k = (h.0, IsAscending-append (x + 1) xs mid ys hi h.1 k)

IsAscending-range_from :
    (lo a n hi : ℕ)
    → lo ≤ a
    → a + n ≤ hi
    → IsAscending lo (numbers (map number_link (range_from a n))) hi
unfolding range_from
IsAscending-range_from lo a zero hi h k = omega arith
IsAscending-range_from lo a (suc n) hi h k =
    (h, IsAscending-range_from (a + 1) (a + 1) n hi (omega arith) (omega arith))

IsAscending-empty :
    (lo a n hi : ℕ)
    → n ≡ 0
    → lo ≤ hi
    → IsAscending lo (numbers (map number_link (range_from a n))) hi
unfolding range_from
IsAscending-empty lo a zero hi e h = h
IsAscending-empty lo a (suc n) hi e h = absurd (omega arith)

IsAscending-number_links :
    (lo a b hi : ℕ) → lo ≤ hi → lo ≤ a → b ≤ hi → IsAscending lo (numbers (number_links a b)) hi
unfolding number_links
IsAscending-number_links lo a b hi h k l = elim (Bool-cases (leb a b)) [
  | inl e ↦ IsAscending-range_from lo a (b - a) hi k (ground arith)
  | inr e ↦ IsAscending-empty lo a (b - a) hi (ground arith) h
]

numbers-append_if : (b : Bool) (s : String) (t : Option ℕ) → numbers (append_if b (text s, t)) ≡ []
unfolding append_if
numbers-append_if true s t = refl
numbers-append_if false s t = refl

module _ (pg : Paginator) (count per_page : ℕ) (laws : IsPaginator pg count per_page) (o : Options)
    (page : ℕ) (from_one : 1 ≤ page) (to_last : page ≤ pg.num_pages) where
  abbrev start_stop : ℕ
  start_stop = min (o.num_start + 1) (page - o.num_around)

  abbrev near_start : ℕ
  near_start = max (page - o.num_around) 1

  abbrev gap_before : Bool
  gap_before = ltb (o.num_start + 1) (page - o.num_around)

  abbrev end_start : ℕ
  end_start = max (pg.num_pages - o.num_end) (page + o.num_around) + 1

  abbrev near_stop : ℕ
  near_stop = min (page + o.num_around) pg.num_pages + 1

  abbrev gap_after : Bool
  gap_after = ltb (page + o.num_around) (pg.num_pages - o.num_end)

  shows-links_before :
      (i : ℕ)
      → shows i (links_before pg o page)
        ≡ (leb 1 i && (ltb i page && (leb i o.num_start || leb (page - o.num_around) i)))
  unfolding links_before
  shows-links_before i = rw laws.previous (elim (Bool-cases (ltb 1 page)) [
    | inl h ↦ rw h (
        ground (
          arith,
          shows-append i
              (number_links 1 start_stop ++ append_if gap_before (text o.spacer_text, none))
              (number_links near_start page),
          shows-append i (number_links 1 start_stop)
              (append_if gap_before (text o.spacer_text, none)),
          shows-append_if i gap_before o.spacer_text none,
          shows-number_links i 1 start_stop,
          shows-number_links i near_start page,
        ))
    | inr h ↦ rw h (
        ground (
          arith,
          shows-append i (append_if o.always_show_prev_text (text o.prev_text, none))
              (number_links near_start page),
          shows-append_if i o.always_show_prev_text o.prev_text none,
          shows-number_links i near_start page,
        ))
  ])

  shows-links_after :
      (i : ℕ)
      → shows i (links_after pg o page) ≡ (
          ltb page i
          && (leb i pg.num_pages
              && (ltb (pg.num_pages - o.num_end) i || leb i (page + o.num_around))))
  unfolding links_after
  shows-links_after i = rw laws.next (elim (Bool-cases (ltb page pg.num_pages)) [
    | inl h ↦
        rw
          (
            h,
            shows-append i (number_links (page + 1) near_stop),
            shows-append i (append_if gap_after (text o.spacer_text, none)),
            shows-append i (number_links end_start (pg.num_pages + 1)),
          )
          (ground (
            arith,
            shows-append_if i gap_after o.spacer_text none,
            shows-number_links i (page + 1) near_stop,
            shows-number_links i end_start (pg.num_pages + 1),
          ))
    | inr h ↦
        rw (h, shows-append i (number_links (page + 1) near_stop))
          (ground (
            arith,
            shows-append_if i o.always_show_next_text o.next_text none,
            shows-number_links i (page + 1) near_stop,
          ))
  ])

  shows-page_links :
      (i : ℕ)
      → shows i (page_links pg o page) ≡ (
          (leb 1 i && (ltb i page && (leb i o.num_start || leb (page - o.num_around) i)))
          || (eqb i page
              || (ltb page i
                  && (leb i pg.num_pages
                      && (ltb (pg.num_pages - o.num_end) i || leb i (page + o.num_around))))))
  unfolding page_links
  shows-page_links i =
      shows-append i (links_before pg o page) _
      ∙ ap₂ (λ a b. a || (eqb i page || b)) (shows-links_before i) (shows-links_after i)

  IsAscending-before : IsAscending 1 (numbers (links_before pg o page)) page
  unfolding links_before
  IsAscending-before =
      let first : IsAscending 1 (numbers (number_links 1 start_stop)) near_start =
        IsAscending-number_links 1 1 start_stop near_start (omega arith) (omega arith)
          (omega arith) in
      let near : IsAscending near_start (numbers (number_links near_start page)) page =
        IsAscending-number_links near_start near_start page page (omega arith) (omega arith)
          (omega arith) in
      let all_near : IsAscending 1 (numbers (number_links near_start page)) page =
        IsAscending-number_links 1 near_start page page (omega arith) (omega arith) (omega arith) in
      rw laws.previous (elim (Bool-cases (ltb 1 page)) [
        | inl h ↦ rw h (
            simp (numbers-append, numbers-append_if, append-nil)
              (IsAscending-append 1 _ near_start _ page first near))
        | inr h ↦ rw h (simp (numbers-append, numbers-append_if) all_near)
      ])

  IsAscending-after : IsAscending (page + 1) (numbers (links_after pg o page)) (pg.num_pages + 1)
  unfolding links_after
  IsAscending-after =
      let near : IsAscending (page + 1) (numbers (number_links (page + 1) near_stop)) near_stop =
        IsAscending-number_links (page + 1) (page + 1) near_stop near_stop (omega arith)
          (omega arith) (omega arith) in
      let last : IsAscending near_stop (numbers (number_links end_start (pg.num_pages + 1)))
          (pg.num_pages + 1) =
        IsAscending-number_links near_stop end_start (pg.num_pages + 1) (pg.num_pages + 1)
          (omega arith) (omega arith) (omega arith) in
      let all_near : IsAscending (page + 1) (numbers (number_links (page + 1) near_stop))
          (pg.num_pages + 1) =
        IsAscending-number_links (page + 1) (page + 1) near_stop (pg.num_pages + 1) (omega arith)
          (omega arith) (omega arith) in
      rw laws.next (elim (Bool-cases (ltb page pg.num_pages)) [
        | inl h ↦ rw h (
            simp (numbers-append, numbers-append_if, append-nil)
              (IsAscending-append (page + 1) _ near_stop _ (pg.num_pages + 1) near last))
        | inr h ↦ rw h (simp (numbers-append, numbers-append_if, append-nil) all_near)
      ])

  page_links-IsAscending : IsAscending 1 (numbers (page_links pg o page)) (pg.num_pages + 1)
  unfolding page_links
  page_links-IsAscending = rw (numbers-append (links_before pg o page)) (
      IsAscending-append 1 (numbers (links_before pg o page)) page _ (pg.num_pages + 1)
        IsAscending-before (omega arith, IsAscending-after))

clamp_page_bounds :
    (pg : Paginator) (n : ℤ)
    → 1 ≤ pg.num_pages
    → (1 ≤ clamp_page pg n) × (clamp_page pg n ≤ pg.num_pages)
unfolding clamp_page
clamp_page_bounds pg (pos n) h = omega arith
clamp_page_bounds pg (negsuc n) h = omega arith

module _ {ℓ} {A : Type ℓ} (pg : Paginator) (items : List A) (per_page : ℕ)
    (laws : IsPaginator pg (length items) per_page) (o : Options) (page_num : ℤ) where
  -- Let `page` be the requested page number, clamped to the pages that exist. The links show the
  -- number `i` exactly if `i` is `page`, or is a page in front of it that is among the first
  -- `num_start` or at most `num_around` away, or is a page behind it that is among the last
  -- `num_end` or at most `num_around` away.
  pub shows-paginate :
      (i page : ℕ)
      → clamp_page pg page_num ≡ page
      → shows i (paginate pg o items page_num).1 ≡ (
          (leb 1 i && (ltb i page && (leb i o.num_start || leb (page - o.num_around) i)))
          || (eqb i page
              || (ltb page i
                  && (leb i pg.num_pages
                      && (ltb (pg.num_pages - o.num_end) i || leb i (page + o.num_around))))))
  unfolding paginate
  shows-paginate i page e =
      let bounds = clamp_page_bounds pg page_num laws.pages_pos in
      rw e (
        shows-page_links pg (length items) per_page laws o page (rw e at bounds.0)
          (rw e at bounds.1) i)

  -- Whatever page is asked for, the numbers shown are pages that exist, each at most once and in
  -- ascending order.
  pub paginate-IsAscending :
      IsAscending 1 (numbers (paginate pg o items page_num).1) (pg.num_pages + 1)
  unfolding paginate
  paginate-IsAscending =
      let bounds = clamp_page_bounds pg page_num laws.pages_pos in
      page_links-IsAscending pg (length items) per_page laws o (clamp_page pg page_num) bounds.0
        bounds.1
