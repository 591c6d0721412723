-- ===== src/Shell/Connect.antt =====
-- shell/shell/server.py, `connect_websock`: the search for an appserver that answers.
use director.Prelude.{
  ℕ, zero, suc, ◌+◌, ◌-◌, ◌%◌, ◌≤◌, ◌<◌, ◌≡◌, refl, sym, ◌∙◌, ap, inl, inr, Bool, true, false,
  Option, none, some, eqb, eqb_iff, ltb, ltb→lt, Bool-cases, arith, if◌then◌else◌,
}
use native.Mathlib.Nat.{mod-add-mod, mod-eq_of_lt, mod-eq-sub-mod}

-- `hosts` is the number of the hosts and `answers` holds for those that the connection succeeds to.
module _ (hosts : ℕ) (answers : ℕ → Bool) where
  -- The loop, from the host `num` and back to `orig`: the host that answers, `some none` where the loop
  -- ends without one, and `none` where `fuel` is used up.
  unfoldable pub find_host : (orig fuel num : ℕ) → Option (Option ℕ)
  find_host orig zero num = none
  find_host orig (suc fuel) num =
      let next = (num + 1) % hosts in
      let rest = find_host orig fuel next in
      if answers num then some (some num) else if eqb next orig then some none else rest

  -- The host that is tried after `i` that did not answer.
  abbrev pub host : ℕ → ℕ → ℕ
  host orig i = (orig + i) % hosts

  -- What the search shall give: the first that answers of the hosts from `orig` on, around the circle.
  abbrev pub IsFirst : ℕ → Option ℕ → Type 0
  IsFirst orig none = (i : ℕ) → i < hosts → answers (host orig i) ≡ false
  IsFirst orig (some found) =
      (k : ℕ) × (k < hosts)
      × (found ≡ host orig k)
      × (answers found ≡ true)
      × ((i : ℕ) → i < k → answers (host orig i) ≡ false)

  module _ (orig : ℕ) (small : orig < hosts) where
    next-host : (i : ℕ) → (host orig i + 1) % hosts ≡ host orig (suc i)
    next-host i = mod-add-mod (orig + i) hosts 1 ∙ ap (λ n. n % hosts) (omega arith)

    full_circle : host orig hosts ≡ orig
    full_circle =
        mod-eq-sub-mod (omega arith) ∙ ap (λ n. n % hosts) (omega arith) ∙ mod-eq_of_lt small

    -- No host before the circle is closed is the first one.
    host-open : (i : ℕ) → 0 < i → i < hosts → host orig i ≡ orig → ⊥
    host-open i pos l e = elim (Bool-cases (ltb (orig + i) hosts)) [
      | inl h ↦ let e' : orig + i ≡ orig = sym (mod-eq_of_lt (ltb→lt _ _ h)) ∙ e in omega arith
      | inr n ↦
          let le : hosts ≤ orig + i = ground arith in
          let e' : orig + i - hosts ≡ orig =
            sym (mod-eq-sub-mod le ∙ mod-eq_of_lt (omega arith)) ∙ e in
          omega arith
    ]

    further :
        (i : ℕ)
        → answers (host orig i) ≡ false
        → ((j : ℕ) → j < i → answers (host orig j) ≡ false)
        → (j : ℕ) → j < suc i
        → answers (host orig j) ≡ false
    further i f before j l = elim (Bool-cases (eqb j i)) [
      | inl e ↦ rw ((eqb_iff j i).0 e) f
      | inr n ↦ before j (ground arith)
    ]

    next-orig : (i : ℕ) → i + 1 ≡ hosts → eqb (host orig (suc i)) orig ≡ true
    next-orig i e =
        let e' : host orig (suc i) ≡ orig = ap (host orig) (omega arith) ∙ full_circle in
        (eqb_iff _ _).1 e'

    next-open : (i : ℕ) → suc i < hosts → eqb (host orig (suc i)) orig ≡ false
    next-open i l = elim (Bool-cases (eqb (host orig (suc i)) orig)) [
      | inl e ↦ elim (host-open (suc i) (omega arith) l ((eqb_iff _ _).0 e)) [ ]
      | inr n ↦ n
    ]

    find_host-from :
        (fuel i : ℕ)
        → i + fuel ≡ hosts
        → i < hosts
        → ((j : ℕ) → j < i → answers (host orig j) ≡ false)
        → (found : Option ℕ) × (find_host orig fuel (host orig i) ≡ some found) × IsFirst orig found
    unfolding find_host
    find_host-from zero i e l before = ground arith
    find_host-from (suc zero) i e l before = elim (Bool-cases (answers (host orig i))) [
      | inl t ↦ (some (host orig i), rw t refl, (i, l, refl, t, before))
      | inr f ↦ (
        none,
        rw (f, next-host i, next-orig i e) refl,
        λ j small_j. further i f before j (omega arith),
      )
    ]
    find_host-from (suc (suc fuel)) i e l before = elim (Bool-cases (answers (host orig i))) [
      | inl t ↦ (some (host orig i), rw t refl, (i, l, refl, t, before))
      | inr f ↦
          let (found, e', first) =
            find_host-from (suc fuel) (suc i) (omega arith) (omega arith) (further i f before) in
          (found, rw (f, next-host i, next-open i (omega arith)) e', first)
    ]

find_host-at :
    (hosts : ℕ) (answers : ℕ → Bool) (orig num : ℕ)
    → orig < hosts
    → num ≡ host hosts answers orig 0
    → (found : Option ℕ) × (find_host hosts answers orig hosts num ≡ some found)
      × IsFirst hosts answers orig found
find_host-at hosts answers orig num small e = rw e (
    find_host-from hosts answers orig small hosts 0 (omega arith) (omega arith)
      (λ j l. ground arith))

-- With one round of fuel per host, the loop ends, whichever host it begins with, and its answer is the first host that
-- answers, around the circle from there, and none only where no host answers.
pub find_host-IsFirst :
    (hosts : ℕ) (answers : ℕ → Bool) (orig : ℕ)
    → orig < hosts
    → (found : Option ℕ) × (find_host hosts answers orig hosts orig ≡ some found)
      × IsFirst hosts answers orig found
find_host-IsFirst hosts answers orig small =
    let e : orig + 0 ≡ orig = omega arith in
    find_host-at hosts answers orig orig small (sym (ap (λ n. n % hosts) e ∙ mod-eq_of_lt small))
