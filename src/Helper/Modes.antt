-- ===== src/Helper/Modes.antt =====
-- Which permission bits `get_new_mode` of orchestrator/helpers/files-helper.py can give.
use Prim.Native.Nat.{bit_and, bit_or, bit_xor}
use director.Prelude.{
  ℕ, zero, suc, ◌%◌, ◌<◌, ◌≡◌, refl, String, Bool, true, ◌&&◌, ◌||◌, Option, none, some, List, [],
  ◌∷◌, arith, ltb, eqb, all, Bool-cases, inl, inr, eqb_iff, ltb→lt, lt→ltb,
}
use director.Helper.Mode.{
  codes, mem, is_proper_subset, octal_digits, rwx, mask_of, mode_mask, octal_from, signed_mode,
  mode_of_codes, get_new_mode,
}

-- Whether all numbers below `top` pass a test.
passes : (ℕ → Bool) → ℕ → Bool
passes test zero = true
passes test (suc top) = passes test top && test top

passes-lt : (test : ℕ → Bool) (top : ℕ) → passes test top ≡ true → (k : ℕ) → k < top → test k ≡ true
unfolding passes
passes-lt test zero done k lt = absurd (omega arith)
passes-lt test (suc top) done k lt = elim (Bool-cases (eqb k top)) [
  | inl here ↦ rw ((eqb_iff k top).0 here) (ground arith)
  | inr below ↦ passes-lt test top (ground arith) k (ground arith)
]

-- The eight sets of letters, as masks.
abbrev masks : List ℕ
masks = 0 ∷ 0o444 ∷ 0o222 ∷ 0o111 ∷ 0o666 ∷ 0o555 ∷ 0o333 ∷ 0o777 ∷ []

is_mask : ℕ → Bool
is_mask m = mem m masks

-- Adding the bits of a mask, or taking them away, gives permission bits alone.
abbrev stays : ℕ → ℕ → Bool
stays old m = ltb (bit_or old m) 512 && ltb (bit_and old (bit_xor 0o777 m)) 512

stays_table : passes (λ old. all (λ m. stays old m) masks) 512 ≡ true
unfolding passes
stays_table = refl

abbrev joins : ℕ → Bool
joins a =
    is_mask (bit_or a 0o444)
    && is_mask (bit_or a 0o222)
    && is_mask (bit_or a 0o111)
    && is_mask (bit_or a 0)

joined_table : all joins masks ≡ true
unfolding is_mask
joined_table = refl

all-mem : (p : ℕ → Bool) (xs : List ℕ) (x : ℕ) → all p xs ≡ true → mem x xs ≡ true → p x ≡ true
all-mem p [] x h i = absurd (cc)
all-mem p (y ∷ xs) x h i = elim (Bool-cases (eqb x y)) [
  | inl e ↦ rw ((eqb_iff x y).0 e) (ground arith)
  | inr e ↦ all-mem p xs x (ground arith) (ground arith)
]

joins-mode_mask : (mask c : ℕ) → joins mask ≡ true → is_mask (bit_or mask (mode_mask c)) ≡ true
unfolding mode_mask
joins-mode_mask mask c j = elim (Bool-cases (eqb c b'r')) [
  | inl r ↦ rw r (ground arith)
  | inr r ↦ elim (Bool-cases (eqb c b'w')) [
    | inl w ↦ rw (r, w) (ground arith)
    | inr w ↦ elim (Bool-cases (eqb c b'x')) [
      | inl x ↦ rw (r, w, x) (ground arith)
      | inr x ↦ rw (r, w, x) (ground arith)
    ]
  ]
]

is_mask-join : (mask c : ℕ) → is_mask mask ≡ true → is_mask (bit_or mask (mode_mask c)) ≡ true
unfolding is_mask
is_mask-join mask c h = joins-mode_mask mask c (all-mem joins masks mask joined_table h)

mask_of-is_mask : (mask : ℕ) (cs : List ℕ) → is_mask mask ≡ true → is_mask (mask_of mask cs) ≡ true
unfolding mask_of
mask_of-is_mask mask [] h = h
mask_of-is_mask mask (c ∷ cs) h =
    mask_of-is_mask (bit_or mask (mode_mask c)) cs (is_mask-join mask c h)

masked-stays : (old : ℕ) (cs : List ℕ) → old < 512 → stays old (mask_of 0 cs) ≡ true
unfolding is_mask
masked-stays old cs h =
    all-mem (λ m. stays old m) masks (mask_of 0 cs)
      (passes-lt (λ o. all (λ m. stays o m) masks) 512 stays_table old h)
      (mask_of-is_mask 0 cs refl)

bound : (x m : ℕ) → ltb x 512 ≡ true → some x ≡ some m → m < 512
bound x m h e = let same : x ≡ m = cc in rw (← same) (ltb→lt x 512 h)

none-some : (m : ℕ) → none ≡ some m → ⊥
none-some m e = absurd (cc)

signed_mode-bound :
    (old : ℕ) (plus : Bool) (cs : List ℕ) (m : ℕ)
    → old < 512
    → signed_mode old plus cs ≡ some m
    → m < 512
unfolding signed_mode
signed_mode-bound old plus cs m h e =
    let kept = masked-stays old cs h in
    elim (Bool-cases (is_proper_subset cs rwx)) [
      | inl ok ↦ elim (Bool-cases plus) [
        | inl add ↦ bound (bit_or old (mask_of 0 cs)) m (ground arith) (rw (ok, add) at e)
        | inr take ↦
            bound (bit_and old (bit_xor 0o777 (mask_of 0 cs))) m (ground arith) (rw (ok, take) at e)
      ]
      | inr bad ↦ absurd (none-some m (rw bad at e))
    ]

mode_of_codes-bound :
    (old : ℕ) (cs : List ℕ) (m : ℕ) → old < 512 → mode_of_codes old cs ≡ some m → m < 512
unfolding mode_of_codes
mode_of_codes-bound old [] m h e = bound old m (lt→ltb old 512 h) e
mode_of_codes-bound old (c ∷ cs) m h e =
    elim (Bool-cases (is_proper_subset (c ∷ cs) octal_digits)) [
      | inl octal ↦
          bound (octal_from 0 (c ∷ cs) % 512) m (lt→ltb _ 512 (omega arith)) (rw octal at e)
      | inr other ↦ elim (Bool-cases (eqb c b'+' || eqb c b'-')) [
        | inl signed ↦ signed_mode-bound old (eqb c b'+') cs m h (rw (other, signed) at e)
        | inr bad ↦ absurd (none-some m (rw (other, bad) at e))
      ]
    ]

-- With permission bits alone to begin with, as for a new file or directory, `get_new_mode` gives
-- permission bits alone, whatever the text of the mode is: no setuid, setgid or sticky bit.
pub get_new_mode-bound :
    (old : ℕ) (mode_str : Option String) (m : ℕ)
    → old < 512
    → get_new_mode old mode_str ≡ some m
    → m < 512
unfolding get_new_mode
get_new_mode-bound old none m h e = bound old m (lt→ltb old 512 h) e
get_new_mode-bound old (some t) m h e = mode_of_codes-bound old (codes t) m h e
