-- ===== src/Sites/TaskTests.antt =====
-- Runs of the tasks and actions of manager/director/apps/sites and the theorems at concrete inputs.
use director.Prelude.{ℕ, ◌≡◌, refl, String, true, false, none, some, List, [], ◌∷◌, All}
use director.Prelude.Exec.{ok}
use director.Http.{World, response}
use director.Sites.Models.{domain_set, active, deleted, blocked}
use director.Sites.Wrapper.{Hooks, handle_item, run_steps}
use director.Sites.Actions.{Manager, Failure}
use director.Sites.Tasks.Claims.{
  KeepsProtected, IsRequested, change_site_domains-KeepsProtected, change_site_domains-IsRequested,
}
use director.Sites.Tasks.{change_site_domains, run_delete_site, delete_site_task}
use director.Sites.Tasks.Outcomes.{IsDeletion, run_delete_site-IsDeletion}
use director.Sites.Samples.{
  blog, url_formats, deps, deps_in, task_deps, rows, manager, current, current_in, deleting,
}
use director.Prelude.Text.{str}
use director.Http.{Request, raised, http_error}
use director.Appserver.{protocol_error}
use director.Sites.Actions.{update_appserver_nginx_config}
use director.Sites.Actions.Recovery.{
  IsLogging, Raises, IsDisabled, update_appserver_nginx_config-IsDisabled,
}

abbrev wanted : List String
wanted = "new.org" ∷ "foreign.org" ∷ "blocked.org" ∷ []

-- The new domain is added, the old one released, and the other two stay.
domains_changed :
    (change_site_domains url_formats
      (λ urls. "")
      task_deps.find_user
      wanted
      "2024student"
      handle_item
      current).1.world.domains
    ≡ record { site = none; domain = "old.org"; creating_user = some 7; status = deleted }
      ∷ record { site = some 9; domain = "foreign.org"; creating_user = none; status = active }
      ∷ record { site = none; domain = "blocked.org"; creating_user = none; status = blocked }
      ∷ record { site = some 3; domain = "new.org"; creating_user = some 7; status = active }
      ∷ []
unfolding change_site_domains handle_item
domains_changed = refl

change_site_domains-KeepsProtected_example :
    KeepsProtected 3 rows
      (change_site_domains url_formats
        (λ urls. "")
        task_deps.find_user
        wanted
        "2024student"
        handle_item
        current).1.world.domains
change_site_domains-KeepsProtected_example =
    change_site_domains-KeepsProtected url_formats (λ urls. "") task_deps.find_user wanted
      "2024student" current

domains_ok :
    (change_site_domains url_formats
      (λ urls. "")
      task_deps.find_user
      wanted
      "2024student"
      handle_item
      current).0
    ≡ ok tt
unfolding change_site_domains handle_item
domains_ok = refl

change_site_domains-IsRequested_example :
    All
      (IsRequested 3 wanted)
      (change_site_domains url_formats
        (λ urls. "")
        task_deps.find_user
        wanted
        "2024student"
        handle_item
        current).1.world.domains
change_site_domains-IsRequested_example =
    change_site_domains-IsRequested url_formats (λ urls. "") task_deps.find_user wanted
      "2024student" current domains_ok

abbrev manager_hooks : Hooks Failure (Manager ℕ)
manager_hooks = record { now = λ m. m.net; notify = λ m. m; describe = λ e m. "failed" }

-- A task whose actions all succeed does not remove the row of a site that has a domain.
site_kept : (run_delete_site manager_hooks deleting [] manager).site_exists ≡ true
unfolding run_delete_site domain_set
site_kept = refl

site_removed :
    (run_delete_site manager_hooks deleting [] (record manager { domains = [] })).site_exists
    ≡ false
unfolding run_delete_site domain_set
site_removed = refl

run_delete_site-IsDeletion_example :
    IsDeletion 3
      (run_steps manager_hooks (delete_site_task deps task_deps blog) manager).0
      (run_delete_site manager_hooks deleting (delete_site_task deps task_deps blog) manager)
run_delete_site-IsDeletion_example =
    run_delete_site-IsDeletion deps task_deps manager_hooks deleting manager blog

-- The first request is refused, and every later one answered.
abbrev refusing : World (List Request)
refusing = record {
  urlopen =
      λ r w. (elim w [ [] ↦ raised (http_error "bad configuration") | _ ↦ response "OK" ], r ∷ w);
  randint = λ n w. (0, w);
  urlencode = λ fields. "";
}

refusing-IsLogging : IsLogging refusing (λ w. w)
refusing-IsLogging = record { logged = λ r w. refl }

nginx_refused :
    Raises
      (protocol_error "bad configuration")
      (update_appserver_nginx_config (deps_in refusing) handle_item (current_in [])).0
unfolding update_appserver_nginx_config handle_item str
nginx_refused = refl

update_appserver_nginx_config-IsDisabled_example :
    IsDisabled
      (deps_in refusing)
      (λ w. w)
      refusing-IsLogging
      3
      (update_appserver_nginx_config (deps_in refusing) handle_item (current_in [])).1.world.net
update_appserver_nginx_config-IsDisabled_example =
    update_appserver_nginx_config-IsDisabled (deps_in refusing) (λ w. w) refusing-IsLogging
      (current_in []) (protocol_error "bad configuration") nginx_refused
