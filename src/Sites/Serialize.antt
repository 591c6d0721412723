-- ===== src/Sites/Serialize.antt =====
-- manager/director/apps/sites/models.py: what is sent to the appservers and to the balancers.
use director.Prelude.{ℕ, String, Bool, Option, none, some, List, map}
use director.Sites.Models.{
  Site, SiteType, Database, Domain, UrlFormats, HostData, is_being_served, list_urls, main_url,
  custom_domains, db_name, db_url, serialize_host,
}
use director.Sites.Limits.{Limits, serialize_resource_limits}
use director.Sites.Images.{ImageData, serialize_image}

pub record DatabaseInfo : Type 0 where
  pub url : String
  pub type : String
  pub host : String
  pub port : ℕ
  pub name : String
  pub username : String
  pub password : String

pub record SiteData : Type 0 where
  pub id : ℕ
  pub name : String
  pub type : SiteType
  pub is_being_served : Bool
  pub no_redirect_domains : List String
  pub primary_url_base : String
  pub database_info : Option DatabaseInfo
  pub docker_image : ImageData
  pub resource_limits : Limits
  pub custom_nginx_config : String

pub record BalancerData : Type 0 where
  pub name : String
  pub custom_domains : List String

pub record DatabaseData : Type 0 where
  pub host : HostData
  pub db_type : String
  pub db_host : String
  pub db_port : ℕ
  pub username : String
  pub password : String
  pub db_name : String
  pub db_url : String

-- Settings, `urlsplit(url).hostname or ""`, `str.rstrip("/")`, and the list of a set of texts.
pub record Formats : Type 0 where
  pub urls : UrlFormats
  pub limits : Limits
  pub split_domain : String → String
  pub strip_slashes : String → String
  pub list_of_set : List String → List String

unfoldable pub database_info : ℕ → Database → DatabaseInfo
unfolding db_name db_url
database_info id d = record {
  url = db_url id d;
  type = d.host.dbms;
  host = d.host.hostname;
  port = d.host.port;
  name = db_name id;
  username = db_name id;
  password = d.password;
}

module _ (f : Formats) where
  unfoldable pub serialize_for_appserver : List Domain → Site → SiteData
  unfolding is_being_served list_urls main_url database_info serialize_image
      serialize_resource_limits
  serialize_for_appserver domains s = record {
    id = s.id;
    name = s.name;
    type = s.type;
    is_being_served = is_being_served s;
    no_redirect_domains = f.list_of_set (map f.split_domain (list_urls f.urls domains s));
    primary_url_base = f.strip_slashes (main_url f.urls domains s);
    database_info = elim s.database [ none ↦ none | some d ↦ some (database_info s.id d) ];
    docker_image = serialize_image s.docker_image;
    resource_limits = serialize_resource_limits f.limits s;
    custom_nginx_config = s.custom_nginx_config;
  }

unfoldable pub serialize_for_balancer : List Domain → Site → BalancerData
unfolding custom_domains
serialize_for_balancer domains s = record {
  name = s.name;
  custom_domains = custom_domains s.id domains;
}

-- `Database.serialize_for_appserver`
unfoldable pub serialize_database : ℕ → Database → DatabaseData
unfolding serialize_host db_name db_url
serialize_database id d = record {
  host = serialize_host d.host;
  db_type = d.host.dbms;
  db_host = d.host.hostname;
  db_port = d.host.port;
  username = db_name id;
  password = d.password;
  db_name = db_name id;
  db_url = db_url id d;
}
