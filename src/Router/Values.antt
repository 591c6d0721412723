-- ===== src/Router/Values.antt =====
-- What router/router/nginx.py and certbot.py do to the JSON of a request, as Python's values.
use director.Prelude.{
  Bytes, Bool, true, false, not, ◌&&◌, Option, none, some, List, [], ◌∷◌, map, eqb, eq_bytes, any,
  all, if◌then◌else◌, ◌≡◌, refl, ℕ, arith,
}

-- A number is its text.
mutual
  pub data Json : Type 0 where
    null : Json
    boolean : Bool → Json
    number : Bytes → Json
    text : Bytes → Json
    array : Items → Json
    object : Members → Json

  pub data Items : Type 0 where
    no_items : Items
    item : Json → Items → Items

  pub data Members : Type 0 where
    no_members : Members
    member : Bytes → Json → Members → Members

abbrev item_list : Items → List Json
item_list no_items = []
item_list (item j is) = j ∷ item_list is

abbrev keys : Members → List Bytes
keys no_members = []
keys (member key j ms) = key ∷ keys ms

-- What a `for` gives, in order: the characters of a text, the items of an array, the keys of an object;
-- none where Python raises a `TypeError`.
unfoldable pub iterate : Json → Option (List Json)
iterate null = none
iterate (boolean b) = none
iterate (number n) = none
iterate (text cs) = some (map (λ c. text (c ∷ [])) cs)
iterate (array is) = some (item_list is)
iterate (object ms) = some (map text (keys ms))

abbrev find_member : Bytes → Members → Option Json
find_member key no_members = none
find_member key (member key' j ms) =
    let rest = find_member key ms in if eq_bytes key' key then some j else rest

-- `data[key]`; none for a `KeyError`, and for a `TypeError` where it is not an object. `json.loads` keeps one
-- member of each key.
unfoldable pub get_field : Bytes → Json → Option Json
get_field key (object ms) = find_member key ms
get_field key null = none
get_field key (boolean b) = none
get_field key (number n) = none
get_field key (text cs) = none
get_field key (array is) = none

abbrev pub contains : Bytes → ℕ → Bool
contains cs c = any (eqb c) cs

-- The element is one of these characters. Other texts and other values are not.
abbrev is_character : Bytes → Json → Bool
is_character allowed (text (c ∷ [])) = contains allowed c
is_character allowed (text []) = false
is_character allowed (text (c ∷ c' ∷ cs)) = false
is_character allowed null = false
is_character allowed (boolean b) = false
is_character allowed (number n) = false
is_character allowed (array is) = false
is_character allowed (object ms) = false

-- `set(j) < set(allowed)`: false also where `set` raises, for what is not iterable, or holds an array or an
-- object, since an `assert` of it ends in an exception either way.
unfoldable pub is_proper_subset : Json → Bytes → Bool
unfolding iterate
is_proper_subset j allowed = elim (iterate j) [
  | none ↦ false
  | some elements ↦
      all (is_character allowed) elements
      && any (λ c. not (any (is_character (c ∷ [])) elements)) allowed
]

-- The texts of a list that holds nothing else.
unfoldable pub texts : List Json → Option (List Bytes)
texts [] = some []
texts (text cs ∷ js) = elim (texts js) [ none ↦ none | some rest ↦ some (cs ∷ rest) ]
texts (null ∷ js) = none
texts (boolean b ∷ js) = none
texts (number n ∷ js) = none
texts (array is ∷ js) = none
texts (object ms ∷ js) = none

-- What is iterated over, where all of it is text.
unfoldable pub iterate_texts : Json → Option (List Bytes)
unfolding iterate texts
iterate_texts j = elim (iterate j) [ none ↦ none | some elements ↦ texts elements ]

abbrev pub name_key : Bytes
name_key = 110 ∷ 97 ∷ 109 ∷ 101 ∷ []

abbrev pub custom_domains_key : Bytes
custom_domains_key =
    99 ∷ 117 ∷ 115 ∷ 116 ∷ 111 ∷ 109 ∷ 95 ∷ 100 ∷ 111 ∷ 109 ∷ 97 ∷ 105 ∷ 110 ∷ 115 ∷ []

characters_all :
    (allowed cs : Bytes)
    → all (is_character allowed) (map (λ c. text (c ∷ [])) cs) ≡ true
    → all (contains allowed) cs ≡ true
characters_all allowed [] h = refl
characters_all allowed (c ∷ cs) h =
    let first : contains allowed c ≡ true = ground arith in
    let rest : all (is_character allowed) (map (λ c. text (c ∷ [])) cs) ≡ true = ground arith in
    rw (first, characters_all allowed cs rest) refl

-- The characters of a text that passes are allowed ones.
pub is_proper_subset-text :
    (allowed cs : Bytes)
    → is_proper_subset (text cs) allowed ≡ true
    → all (contains allowed) cs ≡ true
unfolding is_proper_subset
is_proper_subset-text allowed cs h =
    let inside : all (is_character allowed) (map (λ c. text (c ∷ [])) cs) ≡ true = ground arith in
    characters_all allowed cs inside
