-- ===== src/Request/Tests.antt =====
-- Runs of the views of manager/director/apps/request/views.py.
use director.Prelude.{Bool, true, false, Option, none, some, List, [], ◌∷◌, All, ◌≡◌, refl, map}
use director.Request.{
  User, SiteRequest, Table, accept, reject, Action, key, Decision, Form, post, approve_teacher_view,
  approve_admin_view, create_view,
}
use director.Request.Rows.{IsChanged}
use director.Request.History.{
  Call, approve_teacher, approve_admin, create, answer, answer-IsChanged, answer_all, IsInOrder,
  answer_all-IsInOrder,
}

abbrev student : User
student = record { id = 1; is_student = true; is_teacher = false; is_superuser = false }

abbrev teacher : User
teacher = record { id = 2; is_student = false; is_teacher = true; is_superuser = false }

abbrev admin : User
admin = record { id = 3; is_student = true; is_teacher = false; is_superuser = true }

abbrev everyone : List User
everyone = student ∷ teacher ∷ admin ∷ []

abbrev sent : SiteRequest → Bool
sent row = true

abbrev empty : Table
empty = record { rows = []; next_id = 1; mails = [] }

abbrev form : Form
form = record { activity = 67 ∷ []; extra_information = []; teacher = 2; student_agreement = true }

abbrev decision : Action → Decision
decision action = record {
  request = key 1;
  action = action;
  agreement = true;
  admin_comments = [];
  private_admin_comments = [];
}

abbrev approvals : Table → List (Option Bool × Option Bool)
approvals t = map (λ row. (row.teacher_approval, row.admin_approval)) t.rows

-- A request is made, and an administrator cannot accept it before the teacher does.
order_test :
    (approvals (
        answer_all sent everyone
          (create student post 0 form ∷ approve_admin admin post (decision accept) ∷ [])
          empty)
      ≡ (none, none) ∷ [])
    × (approvals (
          answer_all sent everyone
            (create student post 0 form
              ∷ approve_teacher teacher post (decision accept)
              ∷ approve_admin admin post (decision accept)
              ∷ [])
            empty)
        ≡ (some true, some true) ∷ [])
unfolding answer approve_teacher_view approve_admin_view create_view
order_test = (refl, refl)

-- The teacher rejects a request that the administrator has accepted.
late_rejection_test :
    approvals (
      answer_all sent everyone
        (create student post 0 form
          ∷ approve_teacher teacher post (decision accept)
          ∷ approve_admin admin post (decision accept)
          ∷ approve_teacher teacher post (decision reject)
          ∷ [])
        empty)
    ≡ (some false, some true) ∷ []
unfolding answer approve_teacher_view approve_admin_view create_view
late_rejection_test = refl

abbrev requested : Table
requested = answer_all sent everyone (create student post 0 form ∷ []) empty

answer-IsChanged_example :
    IsChanged everyone teacher requested.rows
      (answer sent everyone (approve_teacher teacher post (decision accept)) requested).1.rows
answer-IsChanged_example =
    answer-IsChanged sent everyone (approve_teacher teacher post (decision accept)) requested

abbrev calls : List Call
calls =
    create student post 0 form
    ∷ approve_teacher teacher post (decision accept)
    ∷ approve_admin admin post (decision accept)
    ∷ []

answer_all-IsInOrder_example :
    All (IsInOrder sent everyone) (answer_all sent everyone calls empty).rows
answer_all-IsInOrder_example = answer_all-IsInOrder sent everyone calls empty refl
