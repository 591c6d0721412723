-- ===== src/Sites/Operations/Laws.antt =====
-- What manager/director/apps/sites/operations.py guarantees: what each of its functions
-- records, queues and announces.
use director.Prelude.{◌≡◌, refl, String, Bool, true, false, none, [], ◌∷◌, ◌++◌}
use director.Sites.Models.{Site, Operation}
use director.Sites.Status.{locks_database}
use director.Sites.Operations.{
  Task, Office, Call, create_db, delete, rename_site_task, edit_site_names_task,
  regen_nginx_config_task, create_database_task, delete_database_task, regen_site_secrets_task,
  update_resource_limits_task, update_availability_task, restart_service_task, update_image_task,
  create_site_task, delete_site_task, change_site_type_task, fix_site_task, rename, regen_nginx,
  regen_secrets, delete_db, restart, create, fix, edit_names, limits, availability, image, type,
}

-- The type of operation and the task that belong to a call.
abbrev pub type_of : Call → String
type_of (rename n) = "rename_site"
type_of regen_nginx = "regen_nginx_config"
type_of regen_secrets = "regen_site_secrets"
type_of delete_db = "delete_site_database"
type_of restart = "restart_site"
type_of create = "create_site"
type_of fix = "fix_site"
type_of delete = "delete_site"
type_of (create_db h) = "create_site_database"
type_of (edit_names n ds u) = "edit_site_names"
type_of (limits l) = "update_resource_limits"
type_of (availability a) = "update_availability"
type_of (image b w ps) = "update_docker_image"
type_of (type t) = "change_site_type"

abbrev pub task_of : Call → Task
task_of (rename n) = rename_site_task n
task_of regen_nginx = regen_nginx_config_task
task_of regen_secrets = regen_site_secrets_task
task_of delete_db = delete_database_task
task_of restart = restart_service_task
task_of create = create_site_task
task_of fix = fix_site_task
task_of delete = delete_site_task
task_of (create_db h) = create_database_task h
task_of (edit_names n ds u) = edit_site_names_task n ds u
task_of (limits l) = update_resource_limits_task l
task_of (availability a) = update_availability_task a
task_of (image b w ps) = update_image_task b w ps
task_of (type t) = change_site_type_task t

abbrev pub new_operation : Site → Call → Operation
new_operation s call = record { site = s.id; type = type_of call; started_time = none }

-- The office with the operation of a call, its task and its message added.
abbrev pub enlarged : Site → Call → Office → Office
enlarged s call o = record {
  operations = o.operations ++ new_operation s call ∷ [];
  queue = o.queue ++ (s.id, task_of call) ∷ [];
  messages = o.messages ++ s.id ∷ [];
}

abbrev pub is_create_db_or_delete : Call → Bool
is_create_db_or_delete (create_db h) = true
is_create_db_or_delete delete = true
is_create_db_or_delete _ = false

-- Of the operations that the functions record, exactly those that create a database or delete a site
-- lock the database. That of `regen_site_secrets`, which changes the password, does not.
pub locks_database-new_operation :
    (s : Site) (call : Call) → locks_database (new_operation s call) ≡ is_create_db_or_delete call
unfolding locks_database
locks_database-new_operation s (rename n) = refl
locks_database-new_operation s _ = refl
