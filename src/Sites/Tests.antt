-- ===== src/Sites/Tests.antt =====
-- Runs of manager/director/apps/sites and the theorems at concrete inputs.
use director.Prelude.{ℕ, ◌+◌, ◌≡◌, refl, true, false, none, List, [], ◌∷◌, filter_by}
use director.Prelude.Exec.{raise}
use director.Sites.Models.{Operation}
use director.Sites.Access.{can_be_edited_by, editable_by_user, editable-can_be_edited}
use director.Sites.Wrapper.{Step, Hooks, add_action, run_steps, auto_run, on_world, value_error}
use director.Sites.Actions.{Failure}
use director.Sites.Operations.{Office}
use director.Sites.Samples.{blog, closed, student, deleting}

abbrev counter_hooks : Hooks Failure ℕ
counter_hooks = record { now = λ s. s; notify = λ s. s + 1; describe = λ e s. "failed" }

-- An action that counts, one that raises, and one that is never reached.
abbrev three_steps : List (Step Failure ℕ)
three_steps =
    add_action "Counting" "count" false (λ emit. on_world (λ n. n + 1))
    ∷ add_action "Raising" "raise" true (λ emit. raise value_error)
    ∷ add_action "Counting again" "count" false (λ emit. on_world (λ n. n + 1))
    ∷ []

abbrev renaming : Operation
renaming = record { site = 3; type = "rename_site"; started_time = none }

-- Each notification counts too: one before, one for each of two actions, one behind.
stopped : (auto_run counter_hooks renaming three_steps 0).2 ≡ 5
unfolding auto_run run_steps add_action
stopped = refl

abbrev busy : Office
busy = record { operations = deleting ∷ []; queue = []; messages = [] }

editable-can_be_edited_example :
    editable_by_user student (blog ∷ closed ∷ [])
    ≡ filter_by (λ s. can_be_edited_by s student) (blog ∷ closed ∷ [])
editable-can_be_edited_example = editable-can_be_edited student (blog ∷ closed ∷ []) refl
