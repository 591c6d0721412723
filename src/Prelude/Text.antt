-- ===== src/Prelude/Text.antt =====
-- Python's `str` of an integer, and joining of texts.
use Prim.Native.Nat.{ℕ, zero, suc, ◌+◌, ◌/◌, ◌%◌}
use Prim.Native.String
use Prim.Native.String.{String}
use mathlib.Core.List.{List, [], ◌∷◌}
use director.Prelude.Tests.{ltb, if◌then◌else◌}
use director.Prelude.Int.{ℤ, pos, negsuc}

infixr 60 ◌⊕◌
abbrev pub ◌⊕◌ : String → String → String
s ⊕ t = String.◌++◌ s t

abbrev pub digit : ℕ → String
digit zero = "0"
digit (suc zero) = "1"
digit (suc (suc zero)) = "2"
digit (suc (suc (suc zero))) = "3"
digit (suc (suc (suc (suc zero)))) = "4"
digit (suc (suc (suc (suc (suc zero))))) = "5"
digit (suc (suc (suc (suc (suc (suc zero)))))) = "6"
digit (suc (suc (suc (suc (suc (suc (suc zero))))))) = "7"
digit (suc (suc (suc (suc (suc (suc (suc (suc zero)))))))) = "8"
digit _ = "9"

-- The fuel is more than the number of digits.
unfoldable pub decimal : ℕ → ℕ → String
decimal zero n = ""
decimal (suc f) n =
    let more = decimal f (n / 10) in if ltb n 10 then digit n else more ⊕ digit (n % 10)

unfoldable pub str : ℕ → String
unfolding decimal
str n = decimal (n + 1) n

unfoldable pub str_ℤ : ℤ → String
unfolding str
str_ℤ (pos n) = str n
str_ℤ (negsuc n) = "-" ⊕ str (n + 1)

abbrev pub join : String → List String → String
join sep [] = ""
join sep (s ∷ []) = s
join sep (s ∷ t ∷ rest) = s ⊕ sep ⊕ join sep (t ∷ rest)
