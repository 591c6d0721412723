-- ===== src/Orchestrator/Docker/Services.antt =====
-- orchestrator/orchestrator/docker/services.py.
use Prim.Native.Char.{code}
use director.Prelude.{
  ℕ, zero, suc, ◌+◌, String, Bool, true, false, ◌&&◌, ◌||◌, Option, none, some, List, [], ◌∷◌, ◌==◌,
  leb, eqb, filter_by, if◌then◌else◌,
}
use director.Prelude.Text.{◌⊕◌, str}
use director.Prelude.Exec.{Exec, pure, raise, try_except, ◌>>=◌, ◌>>◌}
use director.Orchestrator.Docker.Params.{
  Settings, SiteData, ServiceParams, get_director_service_name, gen_director_service_params,
}

-- `OrchestratorActionError`, `ValueError` and `docker.errors.APIError`; `unfinished` is for a loop whose fuel is
-- used up.
pub data Raised : Type 0 where
  action_error value_error api_error : String → Raised
  unfinished : Raised

pub record Service : Type 0 where
  pub name : String
  pub id : String

pub record ExecInfo : Type 0 where
  pub running : Bool
  pub exit_code : Option ℕ

pub record Task : Type 0 where
  pub desired_state : String
  pub state : String
  pub container_id : String

abbrev pub Call : Type 0 → Type 0 → Type 0
Call W A = Exec Raised W A

-- What the code calls of Docker's client and of `time`, over the state `W` of the world.
pub record Client (W : Type 0) : Type 0 where
  pub list_services : String → Call W (List Service)
  pub create_service : ServiceParams → Call W Service
  pub update_service : Service → ServiceParams → Call W (Unit {0})
  pub force_update : Service → Call W Bool
  pub remove_service : Service → Call W (Unit {0})
  pub swarm_node_id : Call W String
  pub tasks_of_node : Service → String → Call W (List Task)
  pub get_container : String → Call W String
  pub exec_create : String → Call W String
  pub exec_start : String → Call W (Unit {0})
  pub exec_inspect : String → Call W ExecInfo
  pub monotonic : Call W ℕ
  pub sleep : ℕ → Call W (Unit {0})

abbrev starts_with : String → String → Bool
starts_with String.[] s = true
starts_with (String.◌∷◌ c cs) String.[] = false
starts_with (String.◌∷◌ c cs) (String.◌∷◌ d ds) = eqb (code c) (code d) && starts_with cs ds

-- `part in text`
abbrev contains : String → String → Bool
contains part String.[] = starts_with part ""
contains part (String.◌∷◌ c s) = starts_with part (String.◌∷◌ c s) || contains part s

abbrev pub is_named : String → Service → Bool
is_named name service = service.name == name

abbrev pub only : {W : Type 0} → List Service → Call W (Option Service)
only [] = pure none
only (service ∷ []) = pure (some service)
only (service ∷ _ ∷ _) = raise (value_error "Duplicate services")

-- `not exec_info["Running"] and exec_info["ExitCode"] is not None`, and the code then.
abbrev pub finished : ExecInfo → Option ℕ
finished info = if info.running then none else info.exit_code

module _ {W : Type 0} (client : Client W) where
  unfoldable pub get_service_by_name : String → Call W (Option Service)
  get_service_by_name name =
      client.list_services name >>= λ services. only (filter_by (is_named name) services)

  -- The branches of `update_director_service`.
  abbrev pub put : ServiceParams → Option Service → Call W Service
  put params none = client.create_service params
  put params (some service) = client.update_service service params >> pure service

  unfoldable pub update_director_service : Settings → ℕ → SiteData → Call W Service
  unfolding get_service_by_name get_director_service_name gen_director_service_params
  update_director_service settings site_id data' =
      get_service_by_name (get_director_service_name site_id)
      >>= put (gen_director_service_params settings site_id data')

  -- A restart that comes between two updates is let pass.
  abbrev on_api_error : Raised → Call W (Unit {0})
  on_api_error (api_error text) =
      if contains "update out of sequence" text then pure tt else raise (api_error text)
  on_api_error e = raise e

  abbrev force : Service → Call W (Unit {0})
  force service = client.force_update service >>= λ done.
      if done then pure tt else raise (action_error "Error restarting service")

  abbrev restart : Option Service → Call W (Unit {0})
  restart none = raise (action_error "Service does not exist")
  restart (some service) = try_except (force service) on_api_error

  unfoldable pub restart_director_service : ℕ → Call W (Unit {0})
  unfolding get_service_by_name get_director_service_name
  restart_director_service site_id =
      get_service_by_name (get_director_service_name site_id) >>= restart

  abbrev pub discard : Option Service → Call W (Unit {0})
  discard none = pure tt
  discard (some service) = client.remove_service service

  unfoldable pub remove_director_service : ℕ → Call W (Unit {0})
  unfolding get_service_by_name get_director_service_name
  remove_director_service site_id =
      get_service_by_name (get_director_service_name site_id) >>= discard

  -- The branches of a round of the loop; `again` is the next round.
  abbrev pub look : (deadline interval : ℕ) → Call W ℕ → Option ℕ → Call W ℕ
  look deadline interval again (some exit_code) = pure exit_code
  look deadline interval again none = client.monotonic >>= λ now.
      if leb deadline now
      then raise (action_error "Timed out reloading Nginx config")
      else client.sleep interval >> again

  -- The loop of `_wait_for_exec_exit_code`. The times are whole numbers of a unit.
  unfoldable pub wait_until : (fuel deadline interval : ℕ) → String → Call W ℕ
  wait_until zero deadline interval exec_id = raise unfinished
  wait_until (suc fuel) deadline interval exec_id =
      let again = wait_until fuel deadline interval exec_id in
      client.exec_inspect exec_id >>= λ info. look deadline interval again (finished info)

  unfoldable pub wait_for_exec_exit_code : (fuel timeout interval : ℕ) → String → Call W ℕ
  unfolding wait_until
  wait_for_exec_exit_code fuel timeout interval exec_id =
      client.monotonic >>= λ start. wait_until fuel (start + timeout) interval exec_id

  abbrev is_running : Task → Bool
  is_running task = (task.desired_state == "running") && (task.state == "running")

  unfoldable pub reload_in : (fuel timeout interval : ℕ) → Task → Call W (Unit {0})
  unfolding wait_for_exec_exit_code
  reload_in fuel timeout interval task = client.get_container task.container_id >>= λ container.
      client.exec_create container >>= λ exec_id.
      client.exec_start exec_id
      >> wait_for_exec_exit_code fuel timeout interval exec_id
      >>= λ exit_code.
          if eqb exit_code 0
          then pure tt
          else raise (
              action_error
                ("Error reloading Nginx config (`nginx -s reload` exited " ⊕ str exit_code ⊕ ")"))

  unfoldable pub reload_tasks : (fuel timeout interval : ℕ) → List Task → Call W (Unit {0})
  unfolding reload_in
  reload_tasks fuel timeout interval [] = pure tt
  reload_tasks fuel timeout interval (task ∷ tasks) =
      let rest = reload_tasks fuel timeout interval tasks in
      if is_running task then reload_in fuel timeout interval task >> rest else rest

  unfoldable pub reload_on : (fuel timeout interval : ℕ) → Option Service → Call W (Unit {0})
  unfolding reload_tasks
  reload_on fuel timeout interval none = raise (action_error "Nginx service does not exist")
  reload_on fuel timeout interval (some service) = client.swarm_node_id >>= λ node_id.
      client.tasks_of_node service node_id >>= λ tasks. reload_tasks fuel timeout interval tasks

  unfoldable pub reload_nginx_config :
      (service_name : String) (fuel timeout interval : ℕ) → Call W (Unit {0})
  unfolding get_service_by_name reload_on
  reload_nginx_config service_name fuel timeout interval =
      get_service_by_name service_name >>= reload_on fuel timeout interval
