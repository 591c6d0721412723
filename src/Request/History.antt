-- ===== src/Request/History.antt =====
-- Any sequence of requests to the views of manager/director/apps/request/views.py.
use director.Prelude.{
  none-some, Bool, none, List, [], ◌∷◌, All, ◌≡◌, ◌≢◌, sym, ◌∙◌, ◌⊎◌, inl, inr, ℕ,
}
use director.Request.{
  User, SiteRequest, Table, Decision, Form, Method, Response, approve_teacher_view,
  approve_admin_view, status_view, create_view,
}
use director.Request.Rows.{IsAllowed, IsChanged, unchanged}
use director.Request.Frame.{
  approve_teacher_view-IsChanged, approve_admin_view-IsChanged, create_view-IsChanged,
}

-- A request to one of the views, by a user who is logged in.
pub data Call : Type 0 where
  approve_teacher approve_admin : (u : User) (m : Method) (d : Decision) → Call
  create : (u : User) (m : Method) (now : ℕ) (f : Form) → Call
  status : (u : User) → Call

abbrev pub caller : Call → User
caller (approve_teacher u m d) = u
caller (approve_admin u m d) = u
caller (create u m now f) = u
caller (status u) = u

module _ (send : SiteRequest → Bool) (users : List User) where
  unfoldable pub answer : Call → Table → Response × Table
  answer (approve_teacher u m d) t = approve_teacher_view send u m d t
  answer (approve_admin u m d) t = approve_admin_view u m d t
  answer (create u m now f) t = create_view send users u m now f t
  answer (status u) t = (status_view u t, t)

  -- Every call of a view, by whoever is logged in, whatever is posted, and whether or not the mail is
  -- sent: no row is lost, the rows keep their order, and each is as it was; or the caller is its teacher,
  -- and only the teacher's approval is set; or the caller is an administrator, the teacher's approval
  -- is true, and only the comments and the administrator's approval are set, which is not taken back.
  -- A row that is new is of the caller, who is a student, is for a teacher, and is not decided.
  pub answer-IsChanged :
      (call : Call) (t : Table) → IsChanged users (caller call) t.rows (answer call t).1.rows
  unfolding answer
  answer-IsChanged (approve_teacher u m d) t = approve_teacher_view-IsChanged send users u m d t
  answer-IsChanged (approve_admin u m d) t = approve_admin_view-IsChanged send users u m d t
  answer-IsChanged (create u m now f) t = create_view-IsChanged send users u m now f t
  answer-IsChanged (status u) t = unchanged users u t.rows

  abbrev pub answer_all : List Call → Table → Table
  answer_all [] t = t
  answer_all (call ∷ calls) t = answer_all calls (answer call t).1

  -- An administrator decides only after the teacher has.
  abbrev pub IsInOrder : SiteRequest → Type 0
  IsInOrder row = (row.admin_approval ≡ none) ⊎ (row.teacher_approval ≢ none)

  allowed-IsInOrder :
      (u : User) (row row' : SiteRequest) → IsAllowed u row row' → IsInOrder row → IsInOrder row'
  allowed-IsInOrder u row row' (inl e) h = rw e h
  allowed-IsInOrder u row row' (inr (inl (_, _, (b, e)))) h = rw e (inr (λ f. none-some (sym f)))
  allowed-IsInOrder u row row' (inr (inr (_, approved, (_, _, _, _, e)))) h =
      rw e (inr (λ f. none-some (sym f ∙ approved)))

  changed-IsInOrder :
      (u : User) (before after : List SiteRequest)
      → IsChanged users u before after
      → All IsInOrder before
      → All IsInOrder after
  changed-IsInOrder u [] [] h k = tt
  changed-IsInOrder u [] (row ∷ rows) ((_, _, _, _, e), h) k =
      (inl e, changed-IsInOrder u [] rows h tt)
  changed-IsInOrder u (row ∷ rows) [] h k = elim h [ ]
  changed-IsInOrder u (row ∷ rows) (row' ∷ rows') (h, hs) (k, ks) =
      (allowed-IsInOrder u row row' h k, changed-IsInOrder u rows rows' hs ks)

  -- After any sequence of calls that starts with no request, every request that an administrator has
  -- decided is one that its teacher has decided.
  pub answer_all-IsInOrder :
      (calls : List Call) (t : Table) → t.rows ≡ [] → All IsInOrder (answer_all calls t).rows
  answer_all-IsInOrder calls t e = go calls t (rw e tt)
    where
      go :
          (calls : List Call) (t : Table)
          → All IsInOrder t.rows
          → All IsInOrder (answer_all calls t).rows
      go [] t h = h
      go (call ∷ calls) t h = go calls (answer call t).1 (
          changed-IsInOrder (caller call) t.rows (answer call t).1.rows (answer-IsChanged call t) h)
