-- ===== src/Sites/Tasks/Claims.antt =====
-- What `change_site_domains` of manager/director/apps/sites/tasks.py does to the rows of the domains.
use director.Prelude.{
  ℕ, ◌≡◌, refl, ◌∙◌, String, Bool, true, false, not, Option, none, some, List, [], ◌∷◌, ◌++◌, ◌==◌,
  eqb, any, All, arith, inl, inr, Bool-cases,
}
use director.Prelude.Exec.{Result, ok, err, ◌>>◌, continue}
use director.Sites.Models.{Site, Domain, active, UrlFormats}
use director.Sites.Wrapper.{Current, handle_item, RunError}
use director.Sites.Actions.{Failure, Manager, Job}
use director.Sites.Tasks.Domains.{
  rows_named, is_blocked, is_foreign, take_over, new_domain, claim_row, claim, release_all,
  claim_all, after_claim, release_others, change_domains_as, change_site_domains,
}

-- A row that a site must leave alone: blocked and of no site, or of another site.
abbrev pub is_protected : ℕ → Domain → Bool
is_protected id r = elim r.site [ none ↦ is_blocked r.status | some i ↦ not (eqb i id) ]

-- The rows `after` begin with the rows `before`, in which each protected one is as it was; what is
-- added is not protected.
abbrev pub KeepsProtected : ℕ → List Domain → List Domain → Type 0
KeepsProtected id [] [] = Unit
KeepsProtected id [] (a ∷ after) = (is_protected id a ≡ false) × KeepsProtected id [] after
KeepsProtected id (b ∷ before) [] = ⊥
KeepsProtected id (b ∷ before) (a ∷ after) =
    ((is_protected id b ≡ true → a ≡ b) × (is_protected id b ≡ false → is_protected id a ≡ false))
    × KeepsProtected id before after

KeepsProtected-refl : (id : ℕ) (rows : List Domain) → KeepsProtected id rows rows
KeepsProtected-refl id [] = tt
KeepsProtected-refl id (r ∷ rows) = ((λ h. refl, λ h. h), KeepsProtected-refl id rows)

KeepsProtected-trans :
    (id : ℕ) (xs ys zs : List Domain)
    → KeepsProtected id xs ys
    → KeepsProtected id ys zs
    → KeepsProtected id xs zs
KeepsProtected-trans id [] [] zs h k = k
KeepsProtected-trans id [] (y ∷ ys) [] h k = absurd k
KeepsProtected-trans id [] (y ∷ ys) (z ∷ zs) h k =
    (k.0.1 h.0, KeepsProtected-trans id [] ys zs h.1 k.1)
KeepsProtected-trans id (x ∷ xs) [] zs h k = absurd h
KeepsProtected-trans id (x ∷ xs) (y ∷ ys) [] h k = absurd k
KeepsProtected-trans id (x ∷ xs) (y ∷ ys) (z ∷ zs) h k = (
  (λ p. k.0.0 (rw (h.0.0 p) p) ∙ h.0.0 p, λ p. k.0.1 (h.0.1 p)),
  KeepsProtected-trans id xs ys zs h.1 k.1,
)

KeepsProtected-append :
    (id : ℕ) (rows : List Domain) (r : Domain)
    → is_protected id r ≡ false
    → KeepsProtected id rows (rows ++ r ∷ [])
KeepsProtected-append id [] r h = (h, tt)
KeepsProtected-append id (x ∷ rows) r h = ((λ p. refl, λ p. p), KeepsProtected-append id rows r h)

own-unprotected :
    (id : ℕ) (r : Domain) → is_protected id (record r { site = some id; status = active }) ≡ false
own-unprotected id r = ground arith

head_eq : (x : Domain) (xs : List Domain) (y : Domain) (ys : List Domain) → x ∷ xs ≡ y ∷ ys → x ≡ y
head_eq x xs y ys e = cc

tail_eq :
    (x : Domain) (xs : List Domain) (y : Domain) (ys : List Domain) → x ∷ xs ≡ y ∷ ys → xs ≡ ys
tail_eq x xs y ys e = cc

take_over-none :
    (id : ℕ) (name : String) (rows : List Domain)
    → rows_named name rows ≡ []
    → take_over id name rows ≡ rows
unfolding take_over rows_named
take_over-none id name [] h = refl
take_over-none id name (r ∷ rows) h = ground (arith, take_over-none id name rows)

take_over-KeepsProtected :
    (id : ℕ) (name : String) (r : Domain) (rows : List Domain)
    → rows_named name rows ≡ r ∷ []
    → is_protected id r ≡ false
    → KeepsProtected id rows (take_over id name rows)
unfolding take_over rows_named
take_over-KeepsProtected id name r [] e h = absurd (cc)
take_over-KeepsProtected id name r (x ∷ rows) e h = elim (Bool-cases (x.domain == name)) [
  | inl same ↦
      let parts : x ∷ rows_named name rows ≡ r ∷ [] = rw same at e in
      let own : is_protected id x ≡ false = rw (head_eq _ _ _ _ parts) h in
      rw (same, take_over-none id name rows (tail_eq _ _ _ _ parts))
        ((λ p. absurd (cc), λ p. own-unprotected id x), KeepsProtected-refl id rows)
  | inr differs ↦
      rw differs ((λ p. refl, λ p. p), take_over-KeepsProtected id name r rows (rw differs at e) h)
]

new_domain-unprotected :
    (id : ℕ) (name : String) (user : ℕ) → is_protected id (new_domain id name user) ≡ false
unfolding new_domain
new_domain-unprotected id name user = ground arith

unchanged : (id : ℕ) (rows rows' : List Domain) → rows ≡ rows' → KeepsProtected id rows rows'
unchanged id rows rows' e = rw (← e) (KeepsProtected-refl id rows)

claim_row-KeepsProtected :
    (id : ℕ) (name : String) (user : ℕ) (found rows : List Domain) (t : Option String)
    (rows' : List Domain)
    → rows_named name rows ≡ found
    → claim_row id name user found rows ≡ ok (t, rows')
    → KeepsProtected id rows rows'
unfolding claim_row
claim_row-KeepsProtected id name user [] rows t rows' e h =
    let same : rows ++ new_domain id name user ∷ [] ≡ rows' = cc in
    rw (← same) (
      KeepsProtected-append id rows (new_domain id name user) (new_domain-unprotected id name user))
claim_row-KeepsProtected id name user (r ∷ []) rows t rows' e h =
    elim (Bool-cases (is_blocked r.status)) [
      | inl b ↦ unchanged id rows rows' (ground arith)
      | inr b ↦ elim (Bool-cases (is_foreign id r.site)) [
        | inl f ↦ unchanged id rows rows' (ground arith)
        | inr f ↦
            let same : take_over id name rows ≡ rows' = ground arith in
            rw (← same) (take_over-KeepsProtected id name r rows e (ground arith))
      ]
    ]
claim_row-KeepsProtected id name user (r ∷ r' ∷ rs) rows t rows' e h = absurd (cc)

-- Along the loop, whatever the names and however it ends.
after_claim-KeepsProtected :
    {W : Type 0} (id : ℕ) (r : Result Failure (Option String × List Domain)) (k : Job W (Unit {0}))
    (c : Current (Manager W))
    → ((t : Option String) (rows' : List Domain)
        → r ≡ ok (t, rows')
        → KeepsProtected id c.world.domains rows')
    → ((c' : Current (Manager W)) → KeepsProtected id c'.world.domains (k c').1.world.domains)
    → KeepsProtected id c.world.domains ((after_claim handle_item r >> k) c).1.world.domains
unfolding handle_item
after_claim-KeepsProtected id (err e) k c h keep = KeepsProtected-refl id c.world.domains
after_claim-KeepsProtected id (ok (none, rows')) k c h keep =
    KeepsProtected-trans id c.world.domains rows' _ (h none rows' refl) (keep _)
after_claim-KeepsProtected id (ok (some t, rows')) k c h keep =
    KeepsProtected-trans id c.world.domains rows' _ (h (some t) rows' refl) (keep _)

claim_all-KeepsProtected :
    {W : Type 0} (id user : ℕ) (names : List String) (c : Current (Manager W))
    → KeepsProtected id c.world.domains (claim_all handle_item id user names c).1.world.domains
unfolding claim_all
claim_all-KeepsProtected id user [] c = KeepsProtected-refl id c.world.domains
claim_all-KeepsProtected id user (name ∷ names) c =
    after_claim-KeepsProtected id (claim id name user c.world.domains)
      (claim_all handle_item id user names) c
      (λ t rows' e. claim_row-KeepsProtected id name user _ c.world.domains t rows' refl e)
      (claim_all-KeepsProtected id user names)

release_all-KeepsProtected :
    (id : ℕ) (names : List String) (rows : List Domain)
    → KeepsProtected id rows (release_all id names rows)
unfolding release_all
release_all-KeepsProtected id names [] = tt
release_all-KeepsProtected id names (r ∷ rows) =
    ((ground arith, ground arith), release_all-KeepsProtected id names rows)

-- A row of the site has one of the names.
abbrev pub IsRequested : ℕ → List String → Domain → Type 0
IsRequested id names r = r.site ≡ some id → any (λ n. n == r.domain) names ≡ true

release_all-IsRequested :
    (id : ℕ) (names : List String) (rows : List Domain)
    → All (IsRequested id names) (release_all id names rows)
unfolding release_all
release_all-IsRequested id names [] = tt
release_all-IsRequested id names (r ∷ rows) = (ground arith, release_all-IsRequested id names rows)

module _ {W : Type 0} (urls : UrlFormats) (show : List String → String) (names : List String)
    (s : Site) where
  release_others-KeepsProtected :
      (before : List Domain) (r : Result (RunError Failure) (Unit {0})) (c : Current (Manager W))
      → KeepsProtected s.id before c.world.domains
      → KeepsProtected s.id before
          (continue r (λ _. release_others urls show names s handle_item) c).1.world.domains
  unfolding release_others handle_item
  release_others-KeepsProtected before (ok u) c h =
      KeepsProtected-trans s.id before c.world.domains _ h
        (release_all-KeepsProtected s.id names c.world.domains)
  release_others-KeepsProtected before (err e) c h = h

  change_domains_as-KeepsProtected :
      (user : Option ℕ) (c : Current (Manager W))
      → KeepsProtected s.id c.world.domains
          (change_domains_as urls show names s handle_item user c).1.world.domains
  unfolding change_domains_as
  change_domains_as-KeepsProtected none c = KeepsProtected-refl s.id c.world.domains
  change_domains_as-KeepsProtected (some user) c =
      release_others-KeepsProtected c.world.domains _ _ (claim_all-KeepsProtected s.id user names c)

  release_others-IsRequested :
      (r : Result (RunError Failure) (Unit {0})) (c : Current (Manager W))
      → (continue r (λ _. release_others urls show names s handle_item) c).0 ≡ ok tt
      → All
          (IsRequested s.id names)
          (continue r (λ _. release_others urls show names s handle_item) c).1.world.domains
  unfolding release_others handle_item
  release_others-IsRequested (ok u) c h = release_all-IsRequested s.id names c.world.domains
  release_others-IsRequested (err e) c h = absurd (cc)

  change_domains_as-IsRequested :
      (user : Option ℕ) (c : Current (Manager W))
      → (change_domains_as urls show names s handle_item user c).0 ≡ ok tt
      → All
          (IsRequested s.id names)
          (change_domains_as urls show names s handle_item user c).1.world.domains
  unfolding change_domains_as
  change_domains_as-IsRequested none c h = absurd (cc)
  change_domains_as-IsRequested (some user) c h = release_others-IsRequested _ _ h

module _ {W : Type 0} (urls : UrlFormats) (show : List String → String)
    (find_user : String → Option ℕ) (names : List String) (username : String)
    (c : Current (Manager W)) where
  abbrev changed : Result (RunError Failure) (Unit {0}) × Current (Manager W)
  changed = change_site_domains urls show find_user names username handle_item c

  -- However `change_site_domains` ends, the rows that belong to another site, or are blocked and
  -- belong to none, are as they were; no row is removed, and no other row or new row is such a row.
  pub change_site_domains-KeepsProtected :
      KeepsProtected c.world.site.id c.world.domains changed.1.world.domains
  unfolding change_site_domains handle_item
  change_site_domains-KeepsProtected =
      change_domains_as-KeepsProtected urls show names c.world.site (find_user username) _

  -- If `change_site_domains` succeeds, the domains of the site are among those that were asked for.
  pub change_site_domains-IsRequested :
      changed.0 ≡ ok tt → All (IsRequested c.world.site.id names) changed.1.world.domains
  unfolding change_site_domains handle_item
  change_site_domains-IsRequested h =
      change_domains_as-IsRequested urls show names c.world.site (find_user username) _ h
