-- ===== src/Sites/Names.antt =====
-- manager/director/utils/site_names.py and the check in `Site.clean`.
use director.Prelude.{String, Bool, true, false, not, List, if◌then◌else◌, ◌==◌, any}
use director.Prelude.Exec.{Result, ok, err}

-- The `WHITELISTED_SITE_NAMES`, `BLACKLISTED_SITE_NAMES` and `BLACKLISTED_SITE_REGEXES` settings. A
-- compiled pattern is given by whether it is found in a name.
pub record NameRules : Type 0 where
  pub whitelisted : List String
  pub blacklisted : List String
  pub regexes : List (String → Bool)

unfoldable pub is_site_name_allowed : NameRules → String → Bool
is_site_name_allowed r name =
    if any (λ n. n == name) r.whitelisted
    then true
    else if any (λ n. n == name) r.blacklisted
    then false
    else not (any (λ p. p name) r.regexes)

pub data CleanError : Type 0 where
  validation_error : String → CleanError

-- `Site.clean`, which `Site.save` calls first.
unfoldable pub clean : NameRules → String → Result CleanError (Unit {0})
unfolding is_site_name_allowed
clean r name =
    if is_site_name_allowed r name
    then ok tt
    else err (validation_error "This site name is not allowed.")
