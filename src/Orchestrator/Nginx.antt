-- ===== src/Orchestrator/Nginx.antt =====
-- orchestrator/orchestrator/configs/nginx.py: the Nginx configuration of a site.
use director.Prelude.{
  ℕ, String, Bool, true, false, ◌||◌, Option, none, some, List, [], ◌∷◌, if◌then◌else◌,
}
use director.Prelude.Text.{◌⊕◌, str}
use director.Prelude.Exec.{Result, ok, err, Exec, pure, raise, gets, lift, ◌>>=◌, ◌>>◌}
use director.Orchestrator.Files.{join_path}
pub mod Backups
mod Tests

-- What a value of the JSON object can be, as far as the code tells them apart. An item of a list that is no text is
-- `none`; the limits are an object, with its `client_body_limit` if it has one.
pub data Value : Type 0 where
  null other : Value
  text : String → Value
  texts : List (Option String) → Value
  limits : Option String → Value

pub data NginxError : Type 0 where
  action_error : String → NginxError
  key_error type_error : NginxError

abbrev pub Keys : Type 0
Keys = String → Option Value

-- The calls of `os` and `shutil`, and the writing of a file, over the state `W` of the disk. An `OSError` gives its text.
pub record Disk (W : Type 0) : Type 0 where
  pub exists : String → W → Bool
  pub move : String → String → Exec String W (Unit {0})
  pub write_file : String → String → Exec String W (Unit {0})
  pub remove : String → Exec String W (Unit {0})

abbrev Checked : Type 0
Checked = Result NginxError (Unit {0})

abbrev refused : String → Checked
refused message = err (action_error message)

abbrev also : Checked → Checked → Checked
also (ok u) c = c
also (err e) c = err e

abbrev required : List String
required =
    "name" ∷ "no_redirect_domains" ∷ "primary_url_base" ∷ "type" ∷ "resource_limits"
    ∷ "is_being_served" ∷ "custom_nginx_config" ∷ []

-- `repr` of a key is the key in quotes.
abbrev check_keys : Keys → List String → Checked
check_keys keys [] = ok tt
check_keys keys (key ∷ more) = elim (keys key) [
  | none ↦ refused ("Missing key '" ⊕ key ⊕ "'")
  | some v ↦ check_keys keys more
]

abbrev pub name_pattern : String
name_pattern = "^[a-z0-9]+(-[a-z0-9]+)*$"

abbrev url_pattern : String
url_pattern = "^https?://[-a-zA-Z0-9.]+(:\\d+)?(/([-_a-zA-Z0-9.~]+/)*[-_a-zA-Z0-9.~]*)?$"

abbrev domain_pattern : String
domain_pattern = "^[a-z0-9]*(-[a-z0-9]+)*(\\.[a-z0-9]+(-[a-z0-9]+)*)+$"

abbrev address_pattern : String
address_pattern = "^((\\d+\\.){3}\\d+|([0-9a-fA-F]|:):[0-9a-fA-F:]*)$"

abbrev limit_pattern : String
limit_pattern = "^\\d+[kKmM]?$"

-- `matches` is whether `re.search` finds a pattern, and `repr` is Python's.
module _ (matches : String → String → Bool) (repr : Option String → String) where
  abbrev test : String → String → String → Checked
  test pattern s message = if matches pattern s then ok tt else refused message

  abbrev check_name : Option Value → Checked
  check_name (some (text s)) = test name_pattern s "Invalid name"
  check_name _ = refused "Invalid name"

  abbrev check_url : Option Value → Checked
  check_url (some null) = ok tt
  check_url (some (text s)) = test url_pattern s "Invalid primary URL"
  check_url _ = refused "Invalid primary URL"

  abbrev check_domain : Option String → Checked
  check_domain none = refused ("Invalid 'no redirect' domain " ⊕ repr none)
  check_domain (some s) =
      if matches domain_pattern s || matches address_pattern s
      then ok tt
      else refused ("Invalid 'no redirect' domain " ⊕ repr (some s))

  abbrev check_each : List (Option String) → Checked
  check_each [] = ok tt
  check_each (d ∷ ds) = also (check_domain d) (check_each ds)

  abbrev check_domains : Option Value → Checked
  check_domains (some (texts ds)) = check_each ds
  check_domains _ = refused "Invalid 'no redirect' domains"

  abbrev check_limit : Option Value → Checked
  check_limit (some (limits (some s))) = test limit_pattern s "Invalid client body limit"
  check_limit (some (limits none)) = err key_error
  check_limit _ = err type_error

  unfoldable pub validate : Keys → Checked
  validate keys = also (check_keys keys required) (
      also (check_name (keys "name")) (
        also (check_url (keys "primary_url_base")) (
          also (check_domains (keys "no_redirect_domains"))
            (check_limit (keys "resource_limits")))))

unfoldable pub config_path : String → ℕ → String
config_path directory site_id = join_path directory ("site-" ⊕ str site_id ⊕ ".conf")

abbrev pub failed_as : String → Result String (Unit {0}) → Checked
failed_as prefix' (ok u) = ok tt
failed_as prefix' (err e) = err (action_error (prefix' ⊕ e))

module _ {W : Type 0} (disk : Disk W) where
  abbrev pub on_disk : String → Exec String W (Unit {0}) → Exec NginxError W (Unit {0})
  on_disk prefix' m w = let r = m w in (failed_as prefix' r.0, r.1)

  unfoldable pub move_away : String → String → String → Exec NginxError W (Unit {0})
  move_away prefix' suffix path = gets (disk.exists path) >>= λ there.
      if there then on_disk prefix' (disk.move path (path ⊕ suffix)) else pure tt

  -- `render` is the template of Jinja, given the site and the keys.
  unfoldable pub update_nginx_config :
      (matches : String → String → Bool) (repr : Option String → String)
      (render : ℕ → Keys → String)
      → String
      → ℕ
      → Keys
      → Exec NginxError W (Unit {0})
  unfolding validate config_path move_away
  update_nginx_config matches repr render directory site_id keys =
      let path = config_path directory site_id in
      lift (validate matches repr keys)
      >> move_away "Error backing up old Nginx config: " ".bak" path
      >> on_disk "Error writing Nginx config: " (disk.write_file path (render site_id keys))

  unfoldable pub disable_nginx_config : String → ℕ → Exec NginxError W (Unit {0})
  unfolding config_path move_away
  disable_nginx_config directory site_id =
      move_away "Error moving old Nginx config out of the way: " ".bad"
        (config_path directory site_id)

  unfoldable pub remove_nginx_config : String → ℕ → Exec NginxError W (Unit {0})
  unfolding config_path
  remove_nginx_config directory site_id =
      let path = config_path directory site_id in
      gets (disk.exists path) >>= λ there.
      if there
      then on_disk "Error moving old Nginx config out of the way: " (disk.remove path)
      else pure tt
