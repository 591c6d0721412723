-- ===== src/Request.antt =====
-- manager/director/apps/request/models.py, forms.py and views.py: requests for sites, and their approval
-- by a teacher and by an administrator. The order of the rows on a page is left out.
pub mod Rows
pub mod Frame
pub mod History
mod Tests
use director.Prelude.{
  Bytes, Bool, true, false, not, ◌&&◌, ◌||◌, Option, none, some, List, [], ◌∷◌, ◌++◌, eqb, leb,
  length, filter_by, if◌then◌else◌, ℕ, ◌+◌,
}

pub record User : Type 0 where
  pub id : ℕ
  pub is_student : Bool
  pub is_teacher : Bool
  pub is_superuser : Bool

pub record SiteRequest : Type 0 where
  pub id : ℕ
  pub user : ℕ
  pub teacher : ℕ
  pub request_date : ℕ
  pub teacher_approval : Option Bool
  pub admin_approval : Option Bool
  pub admin_comments : Bytes
  pub private_admin_comments : Bytes
  pub activity : Bytes
  pub extra_information : Bytes

-- The rows of the table, the id of the next row, and the rows that were mailed about.
pub record Table : Type 0 where
  pub rows : List SiteRequest
  pub next_id : ℕ
  pub mails : List SiteRequest

pub data Action : Type 0 where
  accept reject other : Action

-- `request.POST.get("request", None)`: what is not a number raises ValueError.
pub data Key : Type 0 where
  no_key malformed : Key
  key : ℕ → Key

pub record Decision : Type 0 where
  pub request : Key
  pub action : Action
  pub agreement : Bool
  pub admin_comments : Bytes
  pub private_admin_comments : Bytes

-- What `SiteRequestForm` is given, its text stripped.
pub record Form : Type 0 where
  pub activity : Bytes
  pub extra_information : Bytes
  pub teacher : ℕ
  pub student_agreement : Bool

pub data Method : Type 0 where
  get post : Method

-- A redirect to the index, one to the view itself, a page with these rows, the form, or an exception.
pub data Response : Type 0 where
  to_index to_self form_page failed : Response
  page : List SiteRequest → Response

-- The row with a primary key.
abbrev pub find : ℕ → List SiteRequest → Option SiteRequest
find id [] = none
find id (row ∷ rows) = let rest = find id rows in if eqb row.id id then some row else rest

-- `site_request.save()`, of a row that is there.
abbrev pub save : SiteRequest → List SiteRequest → List SiteRequest
save row [] = []
save row (row' ∷ rows) =
    let rest = save row rows in if eqb row'.id row.id then row ∷ rows else row' ∷ rest

-- The row of the request, if it passes a test; none is DoesNotExist.
abbrev pub get_request : Key → (SiteRequest → Bool) → List SiteRequest → Option SiteRequest
get_request (key id) test rows = elim (find id rows) [
  | none ↦ none
  | some row ↦ if test row then some row else none
]
get_request _ test rows = none

abbrev pub is_malformed : Key → Bool
is_malformed malformed = true
is_malformed _ = false

-- `send` is whether a mail about a row is sent, or the call raises.
module _ (send : SiteRequest → Bool) where
  abbrev pub mail : Response → SiteRequest → Table → Response × Table
  mail response row t =
      if send row then (response, record t { mails = t.mails ++ row ∷ [] }) else (failed, t)

  unfoldable pub teacher_decides : Decision → SiteRequest → Table → Response × Table
  teacher_decides d row t =
      let approve = record row { teacher_approval = some true } in
      let refuse = record row { teacher_approval = some false } in
      elim d.action [
        | accept ↦
            if d.agreement
            then mail to_self approve (record t { rows = save approve t.rows })
            else (to_self, t)
        | reject ↦ (to_self, record t { rows = save refuse t.rows })
        | other ↦ (to_self, t)
      ]

  unfoldable pub approve_teacher_view : User → Method → Decision → Table → Response × Table
  unfolding teacher_decides
  approve_teacher_view u get d t =
      if u.is_teacher
      then (page (filter_by (λ row. eqb row.teacher u.id) t.rows), t)
      else (to_index, t)
  approve_teacher_view u post d t =
      if u.is_teacher
      then (if is_malformed d.request
          then (failed, t)
          else elim (get_request d.request (λ row. eqb row.teacher u.id) t.rows) [
            | none ↦ (to_self, t)
            | some row ↦ teacher_decides d row t
          ])
      else (to_index, t)

-- `teacher_approval=True`
abbrev pub is_approved : SiteRequest → Bool
is_approved row = elim row.teacher_approval [ none ↦ false | some b ↦ b ]

unfoldable pub admin_decides : Decision → SiteRequest → List SiteRequest → List SiteRequest
admin_decides d row rows =
    let commented = record row {
      admin_comments = d.admin_comments;
      private_admin_comments = d.private_admin_comments;
    } in
    let saved = save commented rows in
    elim d.action [
      | accept ↦ save (record commented { admin_approval = some true }) saved
      | reject ↦ save (record commented { admin_approval = some false }) saved
      | other ↦ saved
    ]

unfoldable pub approve_admin_view : User → Method → Decision → Table → Response × Table
unfolding admin_decides
approve_admin_view u get d t = if u.is_superuser then (page t.rows, t) else (to_index, t)
approve_admin_view u post d t =
    if u.is_superuser
    then (if is_malformed d.request
        then (failed, t)
        else elim (get_request d.request is_approved t.rows) [
          | none ↦ (to_self, t)
          | some row ↦ (to_self, record t { rows = admin_decides d row t.rows })
        ])
    else (to_index, t)

unfoldable pub status_view : User → Table → Response
status_view u t =
    if u.is_student then page (filter_by (λ row. eqb row.user u.id) t.rows) else to_index

-- The choices of the form's field `teacher`.
abbrev pub is_teacher_id : List User → ℕ → Bool
is_teacher_id [] id = false
is_teacher_id (u ∷ users) id = (eqb u.id id && u.is_teacher) || is_teacher_id users id

unfoldable pub is_valid_form : List User → Form → Bool
is_valid_form users f =
    is_teacher_id users f.teacher
    && f.student_agreement
    && leb 1 (length f.activity)
    && leb (length f.activity) 32

abbrev pub new_request : User → ℕ → Form → ℕ → SiteRequest
new_request u now f id = record {
  id = id;
  user = u.id;
  teacher = f.teacher;
  request_date = now;
  teacher_approval = none;
  admin_approval = none;
  admin_comments = [];
  private_admin_comments = [];
  activity = f.activity;
  extra_information = f.extra_information;
}

module _ (send : SiteRequest → Bool) (users : List User) where
  unfoldable pub create_view : User → Method → ℕ → Form → Table → Response × Table
  unfolding is_valid_form
  create_view u get now f t = (if u.is_student then form_page else to_index, t)
  create_view u post now f t =
      let row = new_request u now f t.next_id in
      let t' = record t { rows = t.rows ++ row ∷ []; next_id = t.next_id + 1 } in
      if u.is_student
      then (if is_valid_form users f then mail send to_index row t' else (form_page, t))
      else (to_index, t)
