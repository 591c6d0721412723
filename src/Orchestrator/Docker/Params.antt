-- ===== src/Orchestrator/Docker/Params.antt =====
-- orchestrator/orchestrator/docker/shared.py and the parameters of docker/services.py: what the service of a
-- site is made from. The limits of memory and CPU and what is the same for every site are left out.
use director.Prelude.{
  ℕ, String, Bool, Option, none, some, List, [], ◌∷◌, ◌++◌, map, ltb, if◌then◌else◌,
}
use director.Prelude.Text.{◌⊕◌, str}
use director.Orchestrator.Files.{get_site_directory_path, join_path}

pub record DatabaseInfo : Type 0 where
  pub url : String
  pub kind : String
  pub host : String
  pub port : String
  pub name : String
  pub username : String
  pub password : String

pub record SiteData : Type 0 where
  pub database_info : Option DatabaseInfo
  pub image_is_custom : Bool
  pub image_name : String
  pub is_being_served : Bool

pub record Settings : Type 0 where
  pub timezone : String
  pub docker_registry_url : String
  pub sites_directory : String

pub record ServiceParams : Type 0 where
  pub name : String
  pub image : String
  pub binds : List (String × String)
  pub env : List String
  pub replicas : ℕ

abbrev database_env : DatabaseInfo → List (String × String)
database_env d =
    ("DATABASE_URL", d.url)
    ∷ ("DIRECTOR_DATABASE_URL", d.url)
    ∷ ("DIRECTOR_DATABASE_TYPE", d.kind)
    ∷ ("DIRECTOR_DATABASE_HOST", d.host)
    ∷ ("DIRECTOR_DATABASE_PORT", d.port)
    ∷ ("DIRECTOR_DATABASE_NAME", d.name)
    ∷ ("DIRECTOR_DATABASE_USERNAME", d.username)
    ∷ ("DIRECTOR_DATABASE_PASSWORD", d.password)
    ∷ []

unfoldable pub gen_director_container_env : Settings → SiteData → List (String × String)
gen_director_container_env settings data' =
    ("TZ", settings.timezone) ∷ elim data'.database_info [ none ↦ [] | some d ↦ database_env d ]

abbrev assigned : String × String → String
assigned (name, val) = name ⊕ "=" ⊕ val

-- The parameters that services and other containers share, for a service that has no name and no replicas yet.
unfoldable pub gen_director_shared_params : Settings → ℕ → SiteData → ServiceParams
unfolding gen_director_container_env get_site_directory_path
gen_director_shared_params settings site_id data' =
    let directory = get_site_directory_path settings.sites_directory site_id in
    record {
      name = "";
      image =
          if data'.image_is_custom
          then settings.docker_registry_url ⊕ "/" ⊕ data'.image_name
          else data'.image_name;
      binds = (directory, "/site") ∷ (join_path directory ".home", "/root") ∷ [];
      env = map assigned (gen_director_container_env settings data');
      replicas = 0;
    }

-- `"{:04d}".format(n)`
abbrev four_digits : ℕ → String
four_digits n =
    if ltb n 10
    then "000" ⊕ str n
    else if ltb n 100
    then "00" ⊕ str n
    else if ltb n 1000
    then "0" ⊕ str n
    else str n

unfoldable pub get_director_service_name : ℕ → String
get_director_service_name site_id = "site_" ⊕ four_digits site_id

unfoldable pub gen_director_service_params : Settings → ℕ → SiteData → ServiceParams
unfolding gen_director_shared_params get_director_service_name
gen_director_service_params settings site_id data' =
    let params = gen_director_shared_params settings site_id data' in
    record params {
      name = get_director_service_name site_id;
      env = params.env ++ "PORT=80" ∷ "HOST=0.0.0.0" ∷ [];
      replicas = if data'.is_being_served then 1 else 0;
    }
