-- ===== src/Helper/Mode.antt =====
-- orchestrator/helpers/files-helper.py: `get_new_mode`.
use Prim.Native.Nat.{bit_and, bit_or, bit_xor}
use Prim.Native.Char.{code}
use Prim.Native.String.{String}
use director.Prelude.{
  ℕ, ◌+◌, ◌-◌, ◌*◌, ◌%◌, Bool, not, ◌&&◌, ◌||◌, Option, none, some, List, [], ◌∷◌, eqb, any, all,
  if◌then◌else◌,
}

-- The code points of a text.
abbrev pub codes : String → List ℕ
codes String.[] = []
codes (String.◌∷◌ c s) = code c ∷ codes s

abbrev pub mem : ℕ → List ℕ → Bool
mem c cs = any (λ x. eqb c x) cs

-- `set(xs) < set(ys)`, a proper subset.
unfoldable pub is_proper_subset : List ℕ → List ℕ → Bool
is_proper_subset xs ys = all (λ x. mem x ys) xs && not (all (λ y. mem y xs) ys)

abbrev pub octal_digits : List ℕ
octal_digits = b'0' ∷ b'1' ∷ b'2' ∷ b'3' ∷ b'4' ∷ b'5' ∷ b'6' ∷ b'7' ∷ []

abbrev pub rwx : List ℕ
rwx = b'r' ∷ b'w' ∷ b'x' ∷ []

-- `int(mode_str, base=8)`
unfoldable pub octal_from : ℕ → List ℕ → ℕ
octal_from n [] = n
octal_from n (c ∷ cs) = octal_from (n * 8 + (c - b'0')) cs

-- `mode_masks`, the `stat` bits for all three classes of users.
unfoldable pub mode_mask : ℕ → ℕ
mode_mask c =
    if eqb c b'r' then 0o444 else if eqb c b'w' then 0o222 else if eqb c b'x' then 0o111 else 0

unfoldable pub mask_of : ℕ → List ℕ → ℕ
unfolding mode_mask
mask_of mask [] = mask
mask_of mask (c ∷ cs) = mask_of (bit_or mask (mode_mask c)) cs

-- The part behind the sign. `none`: "Invalid mode string", and the program exits.
unfoldable pub signed_mode : ℕ → Bool → List ℕ → Option ℕ
unfolding is_proper_subset mask_of
signed_mode old plus letters =
    if is_proper_subset letters rwx
    then some (
        if plus
        then bit_or old (mask_of 0 letters)
        else bit_and old (bit_xor 0o777 (mask_of 0 letters)))
    else none

unfoldable pub mode_of_codes : ℕ → List ℕ → Option ℕ
unfolding signed_mode octal_from is_proper_subset
mode_of_codes old [] = some old
mode_of_codes old (c ∷ cs) =
    if is_proper_subset (c ∷ cs) octal_digits
    then some (octal_from 0 (c ∷ cs) % 512)
    else if eqb c b'+' || eqb c b'-'
    then signed_mode old (eqb c b'+') cs
    else none

unfoldable pub get_new_mode : ℕ → Option String → Option ℕ
unfolding mode_of_codes
get_new_mode old none = some old
get_new_mode old (some mode_str) = mode_of_codes old (codes mode_str)
