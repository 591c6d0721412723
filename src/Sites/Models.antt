-- ===== src/Sites/Models.antt =====
-- manager/director/apps/sites/models.py: the fields of the models, and the properties that other
-- parts of the manager read. Foreign keys are kept as the object or as its id.
use director.Prelude.{
  ℕ, String, Bool, true, false, Option, none, some, List, [], ◌∷◌, ◌++◌, map, ◌==◌, eqb,
  if◌then◌else◌,
}
use director.Prelude.Text.{◌⊕◌, str}

pub data SiteType : Type 0 where
  static dynamic : SiteType

pub data Purpose : Type 0 where
  legacy user project activity other : Purpose

pub data Availability : Type 0 where
  enabled not_served disabled : Availability

pub data DomainStatus : Type 0 where
  active inactive deleted blocked : DomainStatus

-- The float `cpus` is kept in thousandths.
pub record SiteResourceLimits : Type 0 where
  pub cpus : Option ℕ
  pub mem_limit : String
  pub client_body_limit : String
  pub notes : String

pub record DatabaseHost : Type 0 where
  pub hostname : String
  pub port : ℕ
  pub dbms : String
  pub admin_hostname : String
  pub admin_port : Option ℕ
  pub admin_username : String
  pub admin_password : String

pub record Database : Type 0 where
  pub host : DatabaseHost
  pub password : String

-- A parent image, which has no parent and no packages of its own here.
pub record ParentImage : Type 0 where
  pub name : String
  pub setup_commands : List String
  pub base_install_command : String
  pub install_command_prefix : String
  pub run_script_template : String

pub record DockerImage : Type 0 where
  pub name : String
  pub is_custom : Bool
  pub parent : Option ParentImage
  pub extra_packages : List String

pub record Site : Type 0 where
  pub id : ℕ
  pub name : String
  pub type : SiteType
  pub purpose : Purpose
  pub docker_image : DockerImage
  pub users : List ℕ
  pub database : Option Database
  pub availability : Availability
  pub custom_nginx_config : String
  pub resource_limits : Option SiteResourceLimits

pub record Domain : Type 0 where
  pub site : Option ℕ
  pub domain : String
  pub creating_user : Option ℕ
  pub status : DomainStatus

pub record User : Type 0 where
  pub id : ℕ
  pub username : String
  pub is_authenticated : Bool
  pub is_superuser : Bool

pub record Operation : Type 0 where
  pub site : ℕ
  pub type : String
  pub started_time : Option ℕ

pub record Action : Type 0 where
  pub slug : String
  pub name : String
  pub started_time : Option ℕ
  pub before_state : String
  pub after_state : String
  pub result : Option Bool
  pub message : String
  pub user_recoverable : Bool

-- `Site.is_being_served`
unfoldable pub is_being_served : Site → Bool
is_being_served s = elim s.availability [ Availability.enabled ↦ true | _ ↦ false ]

-- The `SITE_URL_FORMATS` setting: for each purpose the format if there is one, and the default.
pub record UrlFormats : Type 0 where
  pub by_purpose : Purpose → Option (String → String)
  pub default : String → String

unfoldable pub sites_url : UrlFormats → Site → String
sites_url f s = elim (f.by_purpose s.purpose) [ none ↦ f.default s.name | some g ↦ g s.name ]

-- `site.domain_set.values_list("domain", flat=True)`
unfoldable pub domain_set : ℕ → List Domain → List String
domain_set id [] = []
domain_set id (d ∷ ds) =
    let rest = domain_set id ds in
    elim d.site [ none ↦ rest | some i ↦ if eqb i id then d.domain ∷ rest else rest ]

unfoldable pub list_urls : UrlFormats → List Domain → Site → List String
unfolding domain_set sites_url
list_urls f ds s = map (λ d. "https://" ⊕ d) (domain_set s.id ds) ++ sites_url f s ∷ []

unfoldable pub main_url : UrlFormats → List Domain → Site → String
unfolding domain_set sites_url
main_url f ds s = elim (domain_set s.id ds) [ [] ↦ sites_url f s | d ∷ _ ↦ "https://" ⊕ d ]

-- `serialize_for_balancer`: the domains that are active.
unfoldable pub custom_domains : ℕ → List Domain → List String
custom_domains id [] = []
custom_domains id (d ∷ ds) =
    let rest = custom_domains id ds in
    elim d.site [
      | none ↦ rest
      | some i ↦ elim d.status [
        | DomainStatus.active ↦ if eqb i id then d.domain ∷ rest else rest
        | _ ↦ rest
      ]
    ]

-- `Database.db_name` and `Database.username`
unfoldable pub db_name : ℕ → String
db_name site_id = "site_" ⊕ str site_id

unfoldable pub db_url : ℕ → Database → String
unfolding db_name
db_url site_id d =
    d.host.dbms
    ⊕ "://"
    ⊕ db_name site_id
    ⊕ ":"
    ⊕ d.password
    ⊕ "@"
    ⊕ d.host.hostname
    ⊕ ":"
    ⊕ str d.host.port
    ⊕ "/"
    ⊕ db_name site_id

unfoldable pub redacted_db_url : ℕ → Database → String
unfolding db_name
redacted_db_url site_id d =
    d.host.dbms
    ⊕ "://"
    ⊕ db_name site_id
    ⊕ ":***@"
    ⊕ d.host.hostname
    ⊕ ":"
    ⊕ str d.host.port
    ⊕ "/"
    ⊕ db_name site_id

pub record HostData : Type 0 where
  pub dbms : String
  pub admin_hostname : String
  pub admin_port : ℕ
  pub admin_username : String
  pub admin_password : String

-- `self.admin_port or self.port`
abbrev or_port : Option ℕ → ℕ → ℕ
or_port none p = p
or_port (some a) p = if eqb a 0 then p else a

-- `DatabaseHost.serialize_for_appserver`
unfoldable pub serialize_host : DatabaseHost → HostData
serialize_host h = record {
  dbms = h.dbms;
  admin_hostname = if h.admin_hostname == "" then h.hostname else h.admin_hostname;
  admin_port = or_port h.admin_port h.port;
  admin_username = h.admin_username;
  admin_password = h.admin_password;
}
