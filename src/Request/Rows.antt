-- ===== src/Request/Rows.antt =====
-- What a user may change in the table of manager/director/apps/request/models.py, and the rows that are
-- found and saved.
use director.Prelude.{
  Bytes, Bool, true, false, Option, none, some, List, [], ◌∷◌, ◌++◌, All, eqb, eqb_iff, ◌≡◌, ◌≢◌,
  refl, sym, ap, ◌∙◌, ◌⊎◌, inl, inr, ℕ, Bool-cases, Option-cases, arith,
}
use director.Request.{
  User, SiteRequest, Action, accept, reject, other, Key, no_key, malformed, key, find, save,
  get_request, is_teacher_id,
}

some-injective : {A : Type 0} {x y : A} → some x ≡ some y → x ≡ y
some-injective e = cc e

-- What a user may do to a row: nothing; as its teacher, decide; as an administrator, once the teacher has
-- approved, comment, and decide as well.
abbrev pub IsAllowed : User → SiteRequest → SiteRequest → Type 0
IsAllowed u row row' =
    (row' ≡ row)
    ⊎ ((u.is_teacher ≡ true)
        × (row.teacher ≡ u.id)
        × ((b : Bool) × (row' ≡ record row { teacher_approval = some b })))
    ⊎ ((u.is_superuser ≡ true)
        × (row.teacher_approval ≡ some true)
        × ((approval : Option Bool) × (comments : Bytes) × (private_comments : Bytes) × ((approval
                ≡ row.admin_approval)
              ⊎ (approval ≢ none))
            × (row' ≡ record row {
              admin_approval = approval;
              admin_comments = comments;
              private_admin_comments = private_comments;
            })))

-- A new row: of a student, for a teacher, and not yet decided.
abbrev pub IsNew : List User → User → SiteRequest → Type 0
IsNew users u row =
    (u.is_student ≡ true)
    × (row.user ≡ u.id)
    × (is_teacher_id users row.teacher ≡ true)
    × (row.teacher_approval ≡ none)
    × (row.admin_approval ≡ none)

-- Every row stays, changed as its user may; what comes after is new.
abbrev pub IsChanged : List User → User → List SiteRequest → List SiteRequest → Type 0
IsChanged users u [] after = All (IsNew users u) after
IsChanged users u (row ∷ rows) [] = ⊥
IsChanged users u (row ∷ rows) (row' ∷ rows') = IsAllowed u row row' × IsChanged users u rows rows'

pub Action-cases : (x : Action) → (x ≡ accept) ⊎ (x ≡ reject) ⊎ (x ≡ other)
Action-cases accept = inl refl
Action-cases reject = inr (inl refl)
Action-cases other = inr (inr refl)

module _ (users : List User) (u : User) where
  pub unchanged : (rows : List SiteRequest) → IsChanged users u rows rows
  unchanged [] = tt
  unchanged (row ∷ rows) = (inl refl, unchanged rows)

  pub added :
      (rows : List SiteRequest) (row : SiteRequest)
      → IsNew users u row
      → IsChanged users u rows (rows ++ row ∷ [])
  added [] row h = (h, tt)
  added (row' ∷ rows) row h = (inl refl, added rows row h)

  -- Saving a row that was found, changed as is allowed.
  pub saved :
      (id : ℕ) (row row' : SiteRequest) (rows : List SiteRequest)
      → find id rows ≡ some row
      → row'.id ≡ id
      → IsAllowed u row row'
      → IsChanged users u rows (save row' rows)
  saved id row row' [] e f h = tt
  saved id row row' (r ∷ rs) e f h = elim (Bool-cases (eqb r.id id)) [
    | inl g ↦
        let same : some r ≡ some row = rw g at e in
        let g' : eqb r.id row'.id ≡ true = ap (λ n. eqb r.id n) f ∙ g in
        let h' : IsAllowed u r row' = rw (some-injective same) h in rw g' (h', unchanged rs)
    | inr g ↦
        let rest : find id rs ≡ some row = rw g at e in
        let g' : eqb r.id row'.id ≡ false = ap (λ n. eqb r.id n) f ∙ g in
        rw g' (inl refl, saved id row row' rs rest f h)
  ]

find-id :
    (id : ℕ) (rows : List SiteRequest) (row : SiteRequest) → find id rows ≡ some row → row.id ≡ id
find-id id [] row e = absurd (ground (arith, e))
find-id id (r ∷ rs) row e = elim (Bool-cases (eqb r.id id)) [
  | inl g ↦
      let same : some r ≡ some row = rw g at e in
      ap (λ x. x.id) (sym (some-injective same)) ∙ (eqb_iff r.id id).0 g
  | inr g ↦ find-id id rs row (rw g at e)
]

-- The request that a decision is about.
pub get_request-find :
    (k : Key) (test : SiteRequest → Bool) (rows : List SiteRequest) (row : SiteRequest)
    → get_request k test rows ≡ some row
    → (find row.id rows ≡ some row) × (test row ≡ true)
get_request-find no_key test rows row e = absurd (ground (arith, e))
get_request-find malformed test rows row e = absurd (ground (arith, e))
get_request-find (key id) test rows row e = elim (Option-cases (find id rows)) [
  | inl f ↦ absurd (ground (arith, rw (f, get_request) at e))
  | inr (r, f) ↦ elim (Bool-cases (test r)) [
    | inl g ↦
        let same : some r ≡ some row = rw (f, g, get_request) at e in
        let s = some-injective same in
        (
          ap (λ n. find n rows) (ap (λ x. x.id) (sym s) ∙ find-id id rows r f) ∙ f ∙ same,
          ap test (sym s) ∙ g,
        )
    | inr g ↦ absurd (ground (arith, rw (f, g, get_request) at e))
  ]
]

pub save-save :
    (row row' : SiteRequest) (rows : List SiteRequest)
    → row'.id ≡ row.id
    → save row' (save row rows) ≡ save row' rows
save-save row row' [] e = refl
save-save row row' (r ∷ rs) e = elim (Bool-cases (eqb r.id row.id)) [
  | inl g ↦
      let g' : eqb r.id row'.id ≡ true = ap (λ n. eqb r.id n) e ∙ g in
      let h : eqb row.id row'.id ≡ true = ground (arith, e) in rw (g, g', h) refl
  | inr g ↦
      let g' : eqb r.id row'.id ≡ false = ap (λ n. eqb r.id n) e ∙ g in
      rw (g, g', save-save row row' rs e) refl
]
