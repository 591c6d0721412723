-- ===== src/Sites/Operations.antt =====
-- manager/director/apps/sites/operations.py: each operation is recorded, queued as a task, and
-- announced to the site's group.
pub mod Laws
use director.Prelude.{
  ℕ, ◌+◌, String, Bool, true, false, Option, none, some, List, [], ◌∷◌, ◌++◌, any, eqb,
  if◌then◌else◌,
}
use director.Prelude.Exec.{Result, ok, err, Exec, raise, modify, ◌>>=◌, ◌>>◌}
use director.Sites.Models.{
  Site, SiteType, Availability, Operation, DatabaseHost, SiteResourceLimits,
}

-- The tasks with their arguments behind the id of the operation, which is here the id of its site.
pub data Task : Type 0 where
  rename_site_task : String → Task
  edit_site_names_task : String → List String → String → Task
  regen_nginx_config_task : Task
  create_database_task : DatabaseHost → Task
  delete_database_task : Task
  regen_site_secrets_task : Task
  update_resource_limits_task : SiteResourceLimits → Task
  update_availability_task : Availability → Task
  restart_service_task : Task
  update_image_task : String → Bool → List String → Task
  create_site_task : Task
  delete_site_task : Task
  change_site_type_task : SiteType → Task
  fix_site_task : Task

-- `Operation.site` is a one-to-one field.
pub data OperationError : Type 0 where
  integrity_error : OperationError

-- The table of operations, the queue of Celery, and the sites whose groups were told, all with the
-- newest at the end.
pub record Office : Type 0 where
  pub operations : List Operation
  pub queue : List (ℕ × Task)
  pub messages : List ℕ

abbrev pub Order : Type 0
Order = Exec OperationError Office (Unit {0})

abbrev pub has_operation : ℕ → List Operation → Bool
has_operation id ops = any (λ o. eqb o.site id) ops

-- `Operation.objects.create(site=site, type=type)`
unfoldable pub create_operation : ℕ → String → Order
create_operation id type office =
    if has_operation id office.operations then (err integrity_error, office) else (
      ok tt,
      record office {
        operations =
            office.operations ++ record { site = id; type = type; started_time = none } ∷ [];
      },
    )

-- `….delay(operation.id, …)`
unfoldable pub delay : ℕ → Task → Order
delay id task = modify (λ office. record office { queue = office.queue ++ (id, task) ∷ [] })

unfoldable pub send_operation_updated_message : ℕ → Order
send_operation_updated_message id =
    modify (λ office. record office { messages = office.messages ++ id ∷ [] })

abbrev pub order : ℕ → String → Task → Order
order id type task = do create_operation id type; delay id task; send_operation_updated_message id

unfoldable pub rename_site : Site → String → Order
unfolding create_operation delay send_operation_updated_message
rename_site site new_name = order site.id "rename_site" (rename_site_task new_name)

unfoldable pub regen_nginx_config : Site → Order
unfolding create_operation delay send_operation_updated_message
regen_nginx_config site = order site.id "regen_nginx_config" regen_nginx_config_task

unfoldable pub create_database : Site → DatabaseHost → Order
unfolding create_operation delay send_operation_updated_message
create_database site host = order site.id "create_site_database" (create_database_task host)

unfoldable pub delete_database : Site → Order
unfolding create_operation delay send_operation_updated_message
delete_database site = order site.id "delete_site_database" delete_database_task

unfoldable pub regen_site_secrets : Site → Order
unfolding create_operation delay send_operation_updated_message
regen_site_secrets site = order site.id "regen_site_secrets" regen_site_secrets_task

unfoldable pub edit_site_names : Site → String → List String → String → Order
unfolding create_operation delay send_operation_updated_message
edit_site_names site new_name domains request_username =
    order site.id "edit_site_names" (edit_site_names_task new_name domains request_username)

unfoldable pub restart_service : Site → Order
unfolding create_operation delay send_operation_updated_message
restart_service site = order site.id "restart_site" restart_service_task

unfoldable pub update_resource_limits : Site → SiteResourceLimits → Order
unfolding create_operation delay send_operation_updated_message
update_resource_limits site limits =
    order site.id "update_resource_limits" (update_resource_limits_task limits)

unfoldable pub update_availability : Site → Availability → Order
unfolding create_operation delay send_operation_updated_message
update_availability site availability =
    order site.id "update_availability" (update_availability_task availability)

unfoldable pub update_image : Site → String → Bool → List String → Order
unfolding create_operation delay send_operation_updated_message
update_image site base_image_name write_run_sh_file package_names =
    order site.id "update_docker_image"
      (update_image_task base_image_name write_run_sh_file package_names)

unfoldable pub create_site : Site → Order
unfolding create_operation delay send_operation_updated_message
create_site site = order site.id "create_site" create_site_task

unfoldable pub fix_site : Site → Order
unfolding create_operation delay send_operation_updated_message
fix_site site = order site.id "fix_site" fix_site_task

unfoldable pub delete_site : Site → Order
unfolding create_operation delay send_operation_updated_message
delete_site site = order site.id "delete_site" delete_site_task

unfoldable pub change_site_type : Site → SiteType → Order
unfolding create_operation delay send_operation_updated_message
change_site_type site site_type = order site.id "change_site_type" (change_site_type_task site_type)

-- The functions of operations.py, as the requests that the views make.
pub data Call : Type 0 where
  rename : String → Call
  regen_nginx regen_secrets delete_db restart create fix delete : Call
  create_db : DatabaseHost → Call
  edit_names : String → List String → String → Call
  limits : SiteResourceLimits → Call
  availability : Availability → Call
  image : String → Bool → List String → Call
  type : SiteType → Call

unfoldable pub perform : Site → Call → Order
unfolding rename_site regen_nginx_config create_database delete_database regen_site_secrets
    edit_site_names restart_service update_resource_limits update_availability update_image
    create_site fix_site delete_site change_site_type
perform s (rename n) = rename_site s n
perform s regen_nginx = regen_nginx_config s
perform s regen_secrets = regen_site_secrets s
perform s delete_db = delete_database s
perform s restart = restart_service s
perform s create = create_site s
perform s fix = fix_site s
perform s delete = delete_site s
perform s (create_db h) = create_database s h
perform s (edit_names n ds u) = edit_site_names s n ds u
perform s (limits l) = update_resource_limits s l
perform s (availability a) = update_availability s a
perform s (image b w ps) = update_image s b w ps
perform s (type t) = change_site_type s t
