-- ===== src/Sites/Tasks/Steps.antt =====
-- manager/director/apps/sites/tasks.py: the tasks, as the actions that each adds in turn. The sites
-- that the `with` bodies read is the row at the time when the task starts.
use director.Prelude.{
  ℕ, String, Bool, true, false, not, Option, none, some, List, [], ◌∷◌, ◌++◌, if◌then◌else◌,
}
use director.Sites.Models.{
  Site, SiteType, Availability, static, dynamic, SiteResourceLimits, DatabaseHost, Operation,
  Action, Domain, domain_set,
}
use director.Sites.Wrapper.{Step, add_action, Hooks, auto_run}
use director.Sites.Actions.{
  Failure, Deps, Manager, find_pingable_appservers, update_appserver_nginx_config,
  remove_appserver_nginx_config, update_docker_service, restart_docker_service,
  remove_docker_service, build_docker_image, remove_docker_image, ensure_site_directories_exist,
  remove_all_site_files_dangerous, update_balancer_nginx_config, remove_balancer_nginx_config,
  update_balancer_certbot, delete_site_database_and_object, create_real_site_database,
  regen_database_password,
}
use director.Sites.Tasks.Edits.{
  EditDeps, change_site_name, create_database_object, update_resource_limits_object,
  update_availability, change_site_type, update_image_object, write_run_sh_file,
  delete_site_database_object,
}
use director.Sites.Tasks.Domains.{change_site_domains}

-- The settings and the lookups that the tasks use.
pub record TaskDeps : Type 0 where
  pub edits : EditDeps
  pub debug : Bool
  pub site_deletion_remove_database : Bool
  pub site_deletion_remove_files : Bool
  pub show_urls : List String → String
  pub find_user : String → Option ℕ

abbrev pub SiteStep : Type 0 → Type 0
SiteStep W = Step Failure (Manager W)

-- `if b: wrapper.add_action(…)`
abbrev pub when {ℓ} : {A : Type ℓ} → Bool → List A → List A
when b l = if b then l else []

abbrev pub is_dynamic : SiteType → Bool
is_dynamic static = false
is_dynamic dynamic = true

abbrev pub has_database : Site → Bool
has_database s = elim s.database [ none ↦ false | some b ↦ true ]

module _ {W : Type 0} (d : Deps W) (t : TaskDeps) where
  abbrev ping : SiteStep W
  ping =
      add_action "Pinging appservers" "find_pingable_appservers" false (find_pingable_appservers d)

  abbrev nginx : SiteStep W
  nginx =
      add_action "Updating appserver configuration" "update_appserver_nginx_config" false
        (update_appserver_nginx_config d)

  abbrev docker : SiteStep W
  docker =
      add_action "Updating Docker service" "update_docker_service" false (update_docker_service d)

  abbrev undocker : SiteStep W
  undocker =
      add_action "Removing Docker service" "remove_docker_service" false (remove_docker_service d)

  abbrev build : SiteStep W
  build = add_action "Building Docker image" "build_docker_image" true (build_docker_image d)

  abbrev certbot : SiteStep W
  certbot =
      add_action "Updating balancer certbot setup" "update_balancer_certbot" true
        (update_balancer_certbot d)

  abbrev balancer_config : String → SiteStep W
  balancer_config name =
      add_action name "update_balancer_nginx_config" false (update_balancer_nginx_config d)

  abbrev rename : String → SiteStep W
  rename new_name =
      add_action "Changing site name in database" "change_site_name" false
        (change_site_name d t.edits new_name)

  unfoldable pub rename_site_task : String → List (SiteStep W)
  rename_site_task new_name =
      ping
      ∷ rename new_name
      ∷ nginx
      ∷ when (not t.debug) (certbot ∷ balancer_config "Updating balancer configuration" ∷ [])

  unfoldable pub edit_site_names_task : String → List String → String → List (SiteStep W)
  edit_site_names_task new_name domains request_username =
      ping
      ∷ rename new_name
      ∷ add_action "Setting site domain names in database" "change_site_domains" false
          (change_site_domains d.formats.urls t.show_urls t.find_user domains request_username)
      ∷ nginx
      ∷ when (not t.debug) (certbot ∷ balancer_config "Updating balancer configuration" ∷ [])

  unfoldable pub regen_nginx_config_task : List (SiteStep W)
  regen_nginx_config_task =
      ping
      ∷ nginx
      ∷ when (not t.debug) (balancer_config "Updating balancer Nginx configuration" ∷ [])

  unfoldable pub create_database_task : DatabaseHost → Site → List (SiteStep W)
  create_database_task host site =
      ping
      ∷ add_action "Creating database object" "create_database_object" false
          (create_database_object d t.edits host)
      ∷ add_action "Creating real database" "create_real_site_database" false
          (create_real_site_database d)
      ∷ when (is_dynamic site.type) (docker ∷ [])

  unfoldable pub update_resource_limits_task : SiteResourceLimits → Site → List (SiteStep W)
  update_resource_limits_task limits site =
      ping
        ∷ add_action "Updating SiteResourceLimits object" "update_resource_limits_object" false
            (update_resource_limits_object d t.edits limits)
        ∷ when (is_dynamic site.type) (docker ∷ [])
      ++ nginx ∷ []

  unfoldable pub update_availability_task : Availability → Site → List (SiteStep W)
  update_availability_task availability site =
      ping
      ∷ add_action "Updating availability" "update_availability" false
          (update_availability d t.edits availability)
      ∷ nginx
      ∷ when (is_dynamic site.type) (docker ∷ [])

  unfoldable pub regen_site_secrets_task : Site → List (SiteStep W)
  regen_site_secrets_task site =
      ping
        ∷ when (has_database site) (
            add_action "Regenerating database password" "regen_database_password" false
              (regen_database_password d)
            ∷ [])
      ++ when (is_dynamic site.type) (docker ∷ [])

  -- Where there is no database, `delete_database_task` only deletes the operation.
  unfoldable pub delete_database_task : Site → Option (List (SiteStep W))
  delete_database_task site =
      if not (has_database site)
      then none
      else some (
          ping
          ∷ when (has_database site) (
              add_action "Deleting database" "delete_site_database_and_object" false
                (delete_site_database_and_object d)
              ∷ []))

  unfoldable pub restart_service_task : Site → List (SiteStep W)
  restart_service_task site =
      ping
      ∷ when (is_dynamic site.type) (
          add_action "Restarting Docker service" "restart_docker_service" false
            (restart_docker_service d)
          ∷ [])

  unfoldable pub update_image_task : String → Bool → List String → List (SiteStep W)
  update_image_task base_image_name write_run_sh package_names =
      ping
        ∷ add_action "Updating site image object" "update_image_object" false
            (update_image_object d t.edits base_image_name package_names)
        ∷ build
        ∷ when write_run_sh (
            add_action "Writing run.sh" "do_write_run_sh_file" false (write_run_sh_file d t.edits)
            ∷ [])
      ++ docker
        ∷ add_action "Restarting Docker service" "restart_docker_service" false
            (restart_docker_service d)
        ∷ []

  unfoldable pub create_site_task : Site → List (SiteStep W)
  create_site_task site =
      ping
        ∷ add_action "Create site directories" "ensure_site_directories_exist" false
            (ensure_site_directories_exist d)
        ∷ when (is_dynamic site.type) (
            add_action "Creating Docker service" "update_docker_service" false
              (update_docker_service d)
            ∷ [])
      ++ nginx ∷ []

  -- The action on the database is the first of the two if the real one is to go as well.
  abbrev delete_database_step : SiteStep W
  delete_database_step =
      if t.site_deletion_remove_database
      then add_action "Deleting database" "delete_site_database_and_object" false
          (delete_site_database_and_object d)
      else add_action "Deleting database object" "delete_site_database_object" false
          (delete_site_database_object d t.edits)

  unfoldable pub delete_site_task : Site → List (SiteStep W)
  delete_site_task site =
      ping ∷ when (has_database site) (delete_database_step ∷ [])
      ++ undocker
        ∷ add_action "Removing Docker image" "remove_docker_image" false (remove_docker_image d)
        ∷ add_action "Removing appserver Nginx configuration" "remove_appserver_nginx_config" false
            (remove_appserver_nginx_config d)
        ∷ when (not t.debug) (
            add_action "Removing balancer Nginx configuration" "remove_balancer_nginx_config" false
              (remove_balancer_nginx_config d)
            ∷ [])
      ++ when t.site_deletion_remove_files (
          add_action "Removing site files" "remove_all_site_files_dangerous" false
            (remove_all_site_files_dangerous d)
          ∷ [])

  unfoldable pub change_site_type_task : SiteType → List (SiteStep W)
  change_site_type_task type =
      ping
      ∷ add_action "Changing site type in database" "do_write_run_sh_file" false
          (change_site_type d t.edits type)
      ∷ (if is_dynamic type then docker else undocker)
      ∷ nginx
      ∷ []

  unfoldable pub fix_site_task : Site → List (SiteStep W)
  fix_site_task site =
      ping
        ∷ when (has_database site) (
            add_action "Creating/updating database" "create_real_site_database" false
              (create_real_site_database d)
            ∷ [])
      ++ build
        ∷ add_action "Ensuring site directories exist" "ensure_site_directories_exist" false
            (ensure_site_directories_exist d)
        ∷ (if is_dynamic site.type then docker else undocker)
        ∷ nginx
        ∷ when (not t.debug)
            (certbot ∷ balancer_config "Updating balancer Nginx configuration" ∷ [])

-- The tables as far as one site is concerned: its operation with its actions, whether the row of the
-- site is there, and the rest of the state.
pub record Tables (W : Type 0) : Type 0 where
  pub operation : Option Operation
  pub actions : List Action
  pub site_exists : Bool
  pub manager : Manager W

abbrev pub is_filled : List String → Bool
is_filled [] = false
is_filled (name ∷ names) = true

-- `site.delete()`: whether the row is still there. An operation and the domains protect the row that
-- they refer to, and a `ProtectedError` leaves it in place.
unfoldable pub delete_row : ℕ → Option Operation → List Domain → Bool
delete_row id (some op) rows = true
delete_row id none rows = is_filled (domain_set id rows)

module _ {W : Type 0} (hooks : Hooks Failure (Manager W)) where
  -- `with auto_run_operation_wrapper(…)`
  unfoldable pub run_task : Operation → List (SiteStep W) → Manager W → Tables W
  unfolding auto_run
  run_task op steps m =
      let (op', actions, m') = auto_run hooks op steps m in
      record { operation = op'; actions = actions; site_exists = true; manager = m' }

  -- `delete_database_task` as a whole.
  unfoldable pub run_delete_database : Operation → Option (List (SiteStep W)) → Manager W → Tables W
  unfolding run_task
  run_delete_database op none m = record {
    operation = none;
    actions = [];
    site_exists = true;
    manager = m;
  }
  run_delete_database op (some steps) m = run_task op steps m

  -- `delete_site_task` as a whole: the `with` statement, and `site.delete()` behind it.
  unfoldable pub run_delete_site : Operation → List (SiteStep W) → Manager W → Tables W
  unfolding run_task delete_row
  run_delete_site op steps m =
      let tables = run_task op steps m in
      record tables { site_exists = delete_row op.site tables.operation tables.manager.domains }
