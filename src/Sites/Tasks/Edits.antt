-- ===== src/Sites/Tasks/Edits.antt =====
-- manager/director/apps/sites/tasks.py: the actions that the tasks define themselves, which change
-- the rows of the site.
use director.Prelude.{
  ℕ, ◌/◌, ◌%◌, String, true, not, Option, none, some, List, [], ◌∷◌, ◌++◌, ◌==◌, any, if◌then◌else◌,
  ltb, filter_by,
}
use director.Prelude.Text.{◌⊕◌, str, digit}
use director.Prelude.Exec.{pure, gets, ◌>>=◌, ◌>>◌}
use director.Http.{Args, raw}
use director.Sites.Models.{
  Site, SiteType, Availability, enabled, not_served, disabled, static, dynamic, SiteResourceLimits,
  DatabaseHost, DockerImage, ParentImage,
}
use director.Sites.Names.{NameRules, is_site_name_allowed}
use director.Sites.Wrapper.{text, pair, on_world}
use director.Sites.Actions.{
  does_not_exist, integrity_error, validation_error, Deps, Job, Emit, SiteCallback, fail, draw,
  get_site, request, choose_appserver, site_path,
}

-- `"{:04d}".format(n)`
unfoldable pub pad_four : ℕ → String
pad_four n =
    if ltb n 10000
    then digit (n / 1000) ⊕ digit (n / 100 % 10) ⊕ digit (n / 10 % 10) ⊕ digit (n % 10)
    else str n

abbrev pub show_type : SiteType → String
show_type static = "static"
show_type dynamic = "dynamic"

abbrev pub show_availability : Availability → String
show_availability enabled = "enabled"
show_availability not_served = "not-served"
show_availability disabled = "disabled"

-- What the edits use besides: the rules for names, `str` of a `SiteResourceLimits`, the rows of the
-- images, and `.replace("\r", "").encode().rstrip() + b"\n"`.
pub record EditDeps : Type 0 where
  pub names : NameRules
  pub show_limits : SiteResourceLimits → String
  pub find_image : String → Option ParentImage
  pub clean_script : String → String

abbrev blank_limits : SiteResourceLimits
blank_limits = record { cpus = none; mem_limit = ""; client_body_limit = ""; notes = "" }

-- One `get_or_create` for each name.
unfoldable pub add_packages : List String → List String → List String
add_packages [] packages = packages
add_packages (name ∷ names) packages =
    add_packages names (if any (λ n. n == name) packages then packages else packages ++ name ∷ [])

module _ {W : Type 0} (d : Deps W) (e : EditDeps) where
  -- `site.save()`: `clean`, then the unique names of the table.
  unfoldable pub save_site : Site → Job W (Unit {0})
  unfolding is_site_name_allowed
  save_site s = do
    others ← gets (λ c. c.world.other_names)
    if not (is_site_name_allowed e.names s.name)
        then fail validation_error
        else if any (λ n. n == s.name) others
        then fail integrity_error
        else on_world (λ m. record m { site = s })

  unfoldable pub change_site_name : String → SiteCallback W
  unfolding save_site
  change_site_name new_name emit = do
    s ← get_site
    emit (pair "before_state" s.name)
    save_site (record s { name = new_name })
    emit (pair "after_state" new_name)

  unfoldable pub create_database_object : DatabaseHost → SiteCallback W
  unfolding save_site draw
  create_database_object host emit = do
    emit (pair "before_state" "<nonexistent>")
    password ← draw d.gen_database_password
    s ← get_site
    save_site (record s { database = some (record { host = host; password = password }) })
    emit (pair "after_state" ("host=" ⊕ host.hostname))

  abbrev before_limits : Emit W → Option SiteResourceLimits → Job W (Unit {0})
  before_limits emit none = emit (pair "before_state" "<nonexistent>")
  before_limits emit (some l) = emit (pair "before_state" (e.show_limits l))

  -- The new limits take the place of the row's, which is created if it is not there.
  unfoldable pub update_resource_limits_object : SiteResourceLimits → SiteCallback W
  update_resource_limits_object limits emit = do
    s ← get_site
    before_limits emit s.resource_limits
    on_world (λ m. record m { site = record m.site { resource_limits = some limits } })
    emit (pair "after_state" (e.show_limits limits))

  unfoldable pub update_availability : Availability → SiteCallback W
  unfolding save_site
  update_availability availability emit = do
    s ← get_site
    emit (pair "before_state" (show_availability s.availability))
    emit (pair "after_state" (show_availability availability))
    save_site (record s { availability = availability })

  unfoldable pub change_site_type : SiteType → SiteCallback W
  unfolding save_site
  change_site_type type emit = do
    s ← get_site
    emit (pair "before_state" (show_type s.type))
    emit (pair "after_state" (show_type type))
    save_site (record s { type = type })

  abbrev the_image : Option ParentImage → Job W ParentImage
  the_image none = fail does_not_exist
  the_image (some p) = pure p

  abbrev new_image : ℕ → ParentImage → DockerImage
  new_image id parent = record {
    name = "site_" ⊕ pad_four id;
    is_custom = true;
    parent = some parent;
    extra_packages = [];
  }

  unfoldable pub set_parent_image : Emit W → ParentImage → Job W (Unit {0})
  unfolding save_site pad_four
  set_parent_image emit parent = do
    s ← get_site
    if not s.docker_image.is_custom
        then (do
          emit (text "Creating new DockerImage object for site")
          save_site (record s { docker_image = new_image s.id parent }))
        else (do
          emit (text "Updating site DockerImage")
          on_world (λ m. record m {
            site = record m.site {
              docker_image = record m.site.docker_image { parent = some parent };
            };
          }))

  abbrev edit_packages : (List String → List String) → Job W (Unit {0})
  edit_packages f = on_world (λ m. record m {
    site = record m.site {
      docker_image = record m.site.docker_image {
        extra_packages = f m.site.docker_image.extra_packages;
      };
    };
  })

  unfoldable pub update_image_object : String → List String → SiteCallback W
  unfolding set_parent_image add_packages
  update_image_object base_image_name package_names emit = do
    emit (text "Retrieving parent DockerImage")
    parent ← the_image (e.find_image base_image_name)
    set_parent_image emit parent
    emit (text "Pruning image package list")
    edit_packages (filter_by (λ p. any (λ n. n == p) package_names))
    emit (text "Creating image package objects")
    edit_packages (add_packages package_names)
    emit (text "Models updated")

  -- The template of the parent image, if it is there and not empty.
  abbrev run_script : Option ParentImage → Option String
  run_script none = none
  run_script (some p) = if p.run_script_template == "" then none else some p.run_script_template

  abbrev script_args : String → Args
  script_args script = record {
    method = "POST";
    params = ("path", "run.sh") ∷ ("mode", "0755") ∷ [];
    payload = some (raw (e.clean_script script));
    headers = [];
    timeout = d.default_timeout;
  }

  unfoldable pub write_run_sh_file : SiteCallback W
  unfolding choose_appserver request site_path
  write_run_sh_file emit = do
    i ← choose_appserver d
    s ← get_site
    (elim (run_script s.docker_image.parent) [
      | none ↦ emit (text "Skipping -- no run.sh template")
      | some script ↦ do
        emit (text ("Connecting to appserver " ⊕ str i ⊕ " to write run.sh file"))
        request d i (site_path s.id "/files/write") (script_args script)
        emit (text "Successfully wrote run.sh")
    ])

  unfoldable pub delete_site_database_object : SiteCallback W
  delete_site_database_object emit = do
    emit (text "Deleting database object in model (leaving real database intact)")
    on_world (λ m. record m { site = record m.site { database = none } })
