-- ===== src/Orchestrator/Docker/Tests.antt =====
-- Runs of the model of orchestrator/orchestrator/docker, and its properties at concrete inputs.
use director.Prelude.{
  ℕ, ◌+◌, ◌≡◌, ◌≢◌, refl, String, true, false, Option, none, some, Bool-cases, [], ◌∷◌, ◌==◌,
  eq_iff, eq_refl, filter_by, leb, inl, inr, arith, if◌then◌else◌,
}
use director.Prelude.Text.{str}
use director.Prelude.Exec.{ok, err}
use director.Orchestrator.Docker.Params.{
  Settings, SiteData, ServiceParams, get_director_service_name, gen_director_service_params,
}
use director.Orchestrator.Docker.Services.{
  action_error, api_error, unfinished, Service, Client, is_named, update_director_service,
  restart_director_service, wait_for_exec_exit_code, reload_nginx_config,
}
use director.Orchestrator.Docker.Waiting.{IsTimed, wait_for_exec_exit_code-unfinished}
use director.Orchestrator.Docker.Updates.{
  AreServices, IsPut, IsDocker, update_director_service-IsPut,
}

-- The services, and a clock.
pub record World : Type 0 where
  pub services : String → Option ServiceParams
  pub clock : ℕ

abbrev set : String → Option ServiceParams → World → World
set name o w = record w { services = λ n. if n == name then o else w.services n }

-- A Docker in which nothing fails but a restart, and a command that ends with 0 at the time 3.
abbrev client : Client World
client = record {
  list_services = λ name w. (
    ok (elim (w.services name) [ none ↦ [] | some p ↦ record { name = name; id = "" } ∷ [] ]),
    w,
  );
  create_service =
      λ params w. (ok record { name = params.name; id = "" }, set params.name (some params) w);
  update_service = λ service params w. (ok tt, set params.name (some params) w);
  force_update = λ service w. (err (api_error "rpc error: update out of sequence"), w);
  remove_service = λ service w. (ok tt, set service.name none w);
  swarm_node_id = λ w. (ok "node", w);
  tasks_of_node = λ service node w.
      (ok (record { desired_state = "running"; state = "running"; container_id = "c" } ∷ []), w);
  get_container = λ id w. (ok id, w);
  exec_create = λ container w. (ok "exec", w);
  exec_start = λ id w. (ok tt, w);
  exec_inspect = λ id w.
      (ok record { running = false; exit_code = if leb 3 w.clock then some 0 else none }, w);
  monotonic = λ w. (ok w.clock, w);
  sleep = λ n w. (ok tt, record w { clock = w.clock + n });
}

set-IsPut :
    (name : String) (o : Option ServiceParams) (w : World)
    → IsPut name o w.services (set name o w).services
set-IsPut name o w = (
  rw (eq_refl name) refl,
  λ n d. elim (Bool-cases (n == name)) [
    | inl e ↦ elim (d ((eq_iff n name).0 e)) [ ]
    | inr f ↦ rw f refl
  ],
)

found-AreServices :
    (name : String) (o : Option ServiceParams)
    → AreServices o (
        filter_by
          (is_named name)
          (elim o [ none ↦ [] | some p ↦ record { name = name; id = "" } ∷ [] ]))
found-AreServices name none = refl
found-AreServices name (some p) =
    (record { name = name; id = "" }, rw (eq_refl name, filter_by) refl)

client-IsDocker : IsDocker client (λ w. w.services)
client-IsDocker = record {
  listed = λ name w. (_, refl, found-AreServices name (w.services name));
  created = λ params w n. (_, _, refl, set-IsPut params.name (some params) w);
  updated = λ service params w name n. (_, refl, set-IsPut params.name (some params) w);
  removed = λ service w n. (_, refl, set-IsPut service.name none w);
}

client-IsTimed : IsTimed client (λ w. w.clock)
client-IsTimed = record {
  reads = λ w. refl;
  sleeps = λ n w. refl;
  goes_on = λ n w. omega arith;
  no_return = λ id w. omega arith;
  inspected = λ id w. λ h. ground arith;
}

abbrev settings : Settings
settings = record {
  timezone = "America/New_York";
  docker_registry_url = "registry:5000";
  sites_directory = "/data";
}

abbrev site : SiteData
site = record {
  database_info = none;
  image_is_custom = true;
  image_name = "img";
  is_being_served = true;
}

abbrev empty : World
empty = record { services = λ n. none; clock = 0 }

params_test : gen_director_service_params settings 7 site ≡ record {
  name = "site_0007";
  image = "registry:5000/img";
  binds = ("/data/00/07", "/site") ∷ ("/data/00/07/.home", "/root") ∷ [];
  env = "TZ=America/New_York" ∷ "PORT=80" ∷ "HOST=0.0.0.0" ∷ [];
  replicas = 1;
}
unfolding gen_director_service_params str
params_test = refl

update_director_service-IsPut_example :
    (service : Service) × (w' : World) × (update_director_service client settings 7 site empty
      ≡ (ok service, w'))
    × IsPut
        (get_director_service_name 7)
        (some (gen_director_service_params settings 7 site))
        empty.services
        w'.services
update_director_service-IsPut_example =
    update_director_service-IsPut client (λ w. w.services) client-IsDocker settings 7 site empty

wait_for_exec_exit_code-unfinished_example :
    (wait_for_exec_exit_code client 6 5 1 "exec" empty).0 ≢ err unfinished
wait_for_exec_exit_code-unfinished_example =
    wait_for_exec_exit_code-unfinished client (λ w. w.clock) client-IsTimed 5 1 "exec" empty
      (omega arith)

-- The code comes at the time 3, and where the timeout is shorter, the wait fails.
wait_test : (wait_for_exec_exit_code client 6 5 1 "exec" empty).0 ≡ ok 0
unfolding wait_for_exec_exit_code
wait_test = refl

timeout_test :
    (wait_for_exec_exit_code client 3 2 1 "exec" empty).0
    ≡ err (action_error "Timed out reloading Nginx config")
unfolding wait_for_exec_exit_code
timeout_test = refl

reload_test :
    (reload_nginx_config client "nginx" 6 5 1
      (set "nginx" (some (gen_director_service_params settings 7 site)) empty)).0
    ≡ ok tt
unfolding reload_nginx_config
reload_test = refl

restart_test :
    (restart_director_service client 7
      (set "site_0007" (some (gen_director_service_params settings 7 site)) empty)).0
    ≡ ok tt
unfolding restart_director_service str
restart_test = refl
