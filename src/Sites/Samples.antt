-- ===== src/Sites/Samples.antt =====
-- Sites, domains and surroundings for the tests of manager/director/apps/sites.
use director.Prelude.{ℕ, ◌+◌, true, false, none, some, List, [], ◌∷◌, ◌==◌, if◌then◌else◌}
use director.Http.{World, response}
use director.Sites.Models.{
  Site, static, user, enabled, disabled, DockerImage, Domain, active, blocked, User, Operation,
  Action, UrlFormats,
}
use director.Sites.Limits.{Limits, in_bytes}
use director.Sites.Wrapper.{Current}
use director.Sites.Actions.{Deps, Manager, lost}
use director.Sites.Tasks.{TaskDeps}

abbrev pub image : DockerImage
image = record { name = "alpine"; is_custom = false; parent = none; extra_packages = [] }

abbrev pub blog : Site
blog = record {
  id = 3;
  name = "blog";
  type = static;
  purpose = user;
  docker_image = image;
  users = 7 ∷ [];
  database = none;
  availability = enabled;
  custom_nginx_config = "";
  resource_limits =
      some (record { cpus = some 0; mem_limit = ""; client_body_limit = ""; notes = "" });
}

abbrev pub closed : Site
closed = record blog { id = 4; name = "closed"; availability = disabled }

abbrev pub student : User
student = record { id = 7; username = "2024student"; is_authenticated = true; is_superuser = false }

abbrev pub default_limits : Limits
default_limits = record { cpus = 400; mem_limit = in_bytes 100000; client_body_limit = "10M" }

abbrev pub url_formats : UrlFormats
url_formats = record { by_purpose = λ p. none; default = λ name. name }

abbrev pub net : World ℕ
net = record {
  urlopen = λ r w. (response "OK", w + 1);
  randint = λ n w. (0, w);
  urlencode = λ fields. "";
}

-- The surroundings of the actions, for any world. Every websocket is lost.
abbrev pub deps_in : {W : Type 0} → World W → Deps W
deps_in world = record {
  http = world;
  appservers = record { hosts = "a" ∷ []; ws_hosts = "a" ∷ []; ssl = true };
  balancers = record { hosts = "b" ∷ []; ssl = true };
  default_timeout = 3;
  balancer_timeout = 3;
  formats = record {
    urls = url_formats;
    limits = default_limits;
    split_domain = λ url. url;
    strip_slashes = λ url. url;
    list_of_set = λ names. names;
  };
  choice = λ i is w. (i, w);
  hash_mod = λ t n. 0;
  websocket = λ i path first w. (lost "closed", w);
  gen_database_password = λ w. ("secret", w);
  dumps_site = λ d. "{}";
  dumps_balancer = λ d. "{}";
  dumps_database = λ d. "{}";
  dumps_image = λ d. "{}";
  dumps_domains = λ d. "[]";
}

abbrev pub deps : Deps ℕ
deps = deps_in net

abbrev pub task_deps : TaskDeps
task_deps = record {
  edits = record {
    names = record { whitelisted = []; blacklisted = []; regexes = [] };
    show_limits = λ l. "";
    find_image = λ name. none;
    clean_script = λ script. script;
  };
  debug = false;
  site_deletion_remove_database = true;
  site_deletion_remove_files = false;
  show_urls = λ urls. "";
  find_user = λ name. if name == "2024student" then some 7 else none;
}

-- Three rows: one of the site, one of another site, and one that is blocked.
abbrev pub rows : List Domain
rows =
    record { site = some 3; domain = "old.org"; creating_user = some 7; status = active }
    ∷ record { site = some 9; domain = "foreign.org"; creating_user = none; status = active }
    ∷ record { site = none; domain = "blocked.org"; creating_user = none; status = blocked }
    ∷ []

abbrev pub manager_in : {W : Type 0} → W → Manager W
manager_in w = record {
  site = blog;
  other_names = "closed" ∷ [];
  domains = rows;
  pingable = some (0 ∷ []);
  net = w;
}

abbrev pub manager : Manager ℕ
manager = manager_in 0

abbrev pub blank : Action
blank = record {
  slug = "s";
  name = "n";
  started_time = none;
  before_state = "";
  after_state = "";
  result = none;
  message = "";
  user_recoverable = true;
}

abbrev pub current_in : {W : Type 0} → W → Current (Manager W)
current_in w = record { action = blank; world = manager_in w }

abbrev pub current : Current (Manager ℕ)
current = current_in 0

abbrev pub deleting : Operation
deleting = record { site = 3; type = "delete_site"; started_time = none }
