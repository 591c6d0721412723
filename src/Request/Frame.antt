-- ===== src/Request/Frame.antt =====
-- What the views of manager/director/apps/request/views.py change in the table.
use director.Prelude.{
  none-some, Bool, true, false, Option, none, some, List, [], ◌∷◌, ◌++◌, eqb, eqb_iff, ◌≡◌, ◌≢◌,
  refl, sym, ap, ◌∙◌, ◌⊎◌, inl, inr, ℕ, ◌+◌, Bool-cases, Option-cases, arith,
}
use director.Request.{
  User, SiteRequest, Table, Decision, Form, Method, get, post, Response, to_index, to_self, find,
  get_request, is_malformed, mail, teacher_decides, approve_teacher_view, is_approved,
  admin_decides, approve_admin_view, is_teacher_id, is_valid_form, new_request, create_view,
}
use director.Request.Rows.{
  IsChanged, unchanged, added, saved, Action-cases, get_request-find, save-save,
}

module _ (send : SiteRequest → Bool) (users : List User) (u : User) where
  -- What a view leaves.
  abbrev LeavesAllowed : Table → Response × Table → Type 0
  LeavesAllowed t (r, t') = IsChanged users u t.rows t'.rows

  mail-IsChanged :
      (before : List SiteRequest) (r : Response) (row : SiteRequest) (t : Table)
      → IsChanged users u before t.rows
      → IsChanged users u before (mail send r row t).1.rows
  mail-IsChanged before r row t h = elim (Bool-cases (send row)) [
    | inl e ↦ rw (e, mail) h
    | inr e ↦ rw (e, mail) h
  ]

  teacher_decides-IsChanged :
      (d : Decision) (row : SiteRequest) (t : Table)
      → u.is_teacher ≡ true
      → find row.id t.rows ≡ some row
      → row.teacher ≡ u.id
      → IsChanged users u t.rows (teacher_decides send d row t).1.rows
  unfolding teacher_decides
  teacher_decides-IsChanged d row t teacher f owner =
      let decided = λ (b : Bool).
        saved users u row.id row (record row { teacher_approval = some b }) t.rows f refl
          (inr (inl (teacher, owner, (b, refl)))) in
      elim (Action-cases d.action) [
        | inl e ↦ elim (Bool-cases d.agreement) [
          | inl g ↦ rw (e, g, teacher_decides) (mail-IsChanged t.rows to_self _ _ (decided true))
          | inr g ↦ rw (e, g, teacher_decides) (unchanged users u t.rows)
        ]
        | inr (inl e) ↦ rw (e, teacher_decides) (decided false)
        | inr (inr e) ↦ rw (e, teacher_decides) (unchanged users u t.rows)
      ]

  pub approve_teacher_view-IsChanged :
      (m : Method) (d : Decision) (t : Table)
      → IsChanged users u t.rows (approve_teacher_view send u m d t).1.rows
  unfolding approve_teacher_view
  approve_teacher_view-IsChanged get d t = elim (Bool-cases u.is_teacher) [
    | inl e ↦ simp (e, approve_teacher_view) (unchanged users u t.rows)
    | inr e ↦ simp (e, approve_teacher_view) (unchanged users u t.rows)
  ]
  approve_teacher_view-IsChanged post d t = elim (Bool-cases u.is_teacher) [
    | inr e ↦ simp (e, approve_teacher_view) (unchanged users u t.rows)
    | inl e ↦ elim (Bool-cases (is_malformed d.request)) [
      | inl f ↦ simp (e, f, approve_teacher_view) (unchanged users u t.rows)
      | inr f ↦ elim (Option-cases (get_request d.request (λ row. eqb row.teacher u.id) t.rows)) [
        | inl g ↦ simp (e, f, g, approve_teacher_view) (unchanged users u t.rows)
        | inr (row, g) ↦
            let (found, owner) =
              get_request-find d.request (λ row. eqb row.teacher u.id) t.rows row g in
            simp (e, f, g, approve_teacher_view)
              (teacher_decides-IsChanged d row t e found ((eqb_iff row.teacher u.id).0 owner))
      ]
    ]
  ]

  is_approved-eq : (row : SiteRequest) → is_approved row ≡ true → row.teacher_approval ≡ some true
  is_approved-eq row e = elim (Option-cases row.teacher_approval) [
    | inl f ↦ absurd (ground (arith, rw (f, is_approved) at e))
    | inr (b, f) ↦ let g : b ≡ true = rw (f, is_approved) at e in f ∙ ap some g
  ]

  admin_decides-IsChanged :
      (d : Decision) (row : SiteRequest) (rows : List SiteRequest)
      → u.is_superuser ≡ true
      → find row.id rows ≡ some row
      → row.teacher_approval ≡ some true
      → IsChanged users u rows (admin_decides d row rows)
  unfolding admin_decides
  admin_decides-IsChanged d row rows admin f approved =
      let commented = record row {
        admin_comments = d.admin_comments;
        private_admin_comments = d.private_admin_comments;
      } in
      let decided =
        λ (approval : Option Bool) (h : (approval ≡ row.admin_approval) ⊎ (approval ≢ none)).
          saved users u row.id row (record commented { admin_approval = approval }) rows f refl
            (inr (
              inr (
                admin,
                approved,
                (approval, d.admin_comments, d.private_admin_comments, h, refl),
              ))) in
      elim (Action-cases d.action) [
        | inl e ↦
            rw
              (
                e,
                admin_decides,
                save-save commented (record commented { admin_approval = some true }) rows refl,
              )
              (decided (some true) (inr (λ f. none-some (sym f))))
        | inr (inl e) ↦
            rw
              (
                e,
                admin_decides,
                save-save commented (record commented { admin_approval = some false }) rows refl,
              )
              (decided (some false) (inr (λ f. none-some (sym f))))
        | inr (inr e) ↦ rw (e, admin_decides) (decided row.admin_approval (inl refl))
      ]

  pub approve_admin_view-IsChanged :
      (m : Method) (d : Decision) (t : Table)
      → IsChanged users u t.rows (approve_admin_view u m d t).1.rows
  unfolding approve_admin_view
  approve_admin_view-IsChanged get d t = elim (Bool-cases u.is_superuser) [
    | inl e ↦ simp (e, approve_admin_view) (unchanged users u t.rows)
    | inr e ↦ simp (e, approve_admin_view) (unchanged users u t.rows)
  ]
  approve_admin_view-IsChanged post d t = elim (Bool-cases u.is_superuser) [
    | inr e ↦ simp (e, approve_admin_view) (unchanged users u t.rows)
    | inl e ↦ elim (Bool-cases (is_malformed d.request)) [
      | inl f ↦ simp (e, f, approve_admin_view) (unchanged users u t.rows)
      | inr f ↦ elim (Option-cases (get_request d.request is_approved t.rows)) [
        | inl g ↦ simp (e, f, g, approve_admin_view) (unchanged users u t.rows)
        | inr (row, g) ↦
            let (found, approved) = get_request-find d.request is_approved t.rows row g in
            simp (e, f, g, approve_admin_view)
              (admin_decides-IsChanged d row t.rows e found (is_approved-eq row approved))
      ]
    ]
  ]

  valid_form-teacher :
      (f : Form) → is_valid_form users f ≡ true → is_teacher_id users f.teacher ≡ true
  unfolding is_valid_form
  valid_form-teacher f e = elim (Bool-cases (is_teacher_id users f.teacher)) [
    | inl g ↦ g
    | inr g ↦ absurd (ground (arith, rw (g, is_valid_form) at e))
  ]

  pub create_view-IsChanged :
      (m : Method) (now : ℕ) (f : Form) (t : Table)
      → IsChanged users u t.rows (create_view send users u m now f t).1.rows
  unfolding create_view
  create_view-IsChanged get now f t = unchanged users u t.rows
  create_view-IsChanged post now f t = elim (Bool-cases u.is_student) [
    | inr e ↦ simp (e, create_view) (unchanged users u t.rows)
    | inl e ↦ elim (Bool-cases (is_valid_form users f)) [
      | inr g ↦ simp (e, g, create_view) (unchanged users u t.rows)
      | inl g ↦
          let row = new_request u now f t.next_id in
          simp (e, g, create_view)
            (mail-IsChanged t.rows to_index row
              (record t { rows = t.rows ++ row ∷ []; next_id = t.next_id + 1 })
              (added users u t.rows row (e, refl, valid_form-teacher f g, refl, refl)))
    ]
  ]
