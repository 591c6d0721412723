-- ===== src/Router.antt =====
-- router/router/nginx.py, certbot.py and app.py: the balancers' service, which keeps the configuration of
-- Nginx for the custom domains of each site.
pub mod Values
pub mod Frame
mod Tests
use director.Prelude.{
  Bytes, Bool, true, false, ◌||◌, Option, none, some, List, [], ◌∷◌, ◌++◌, eqb, ltb, all,
  if◌then◌else◌, ℕ, zero, suc, ◌+◌,
}
use director.Router.Values.{
  Json, iterate, get_field, is_proper_subset, iterate_texts, name_key, custom_domains_key,
}

pub data Command : Type 0 where
  reload : Command
  setup : (site_id : ℕ) (domains : List Bytes) → Command
  remove_old_domains : (input : Bytes) → Command

-- A disk that does not fail is taken for granted. What the pages call: `render` is what Jinja makes of the
-- template router/router/templates/nginx.conf, `json_loads` is none where it raises, and `succeeds` is
-- whether `subprocess.run` returns, which with `check=True` is a program that ends without an error.
pub record Host : Type 0 where
  pub render : (site_id : ℕ) (name custom_domains : Json) → Bytes
  pub json_loads : Bytes → Option Json
  pub succeeds : Command → Bool

-- The files of the directory, by the site in their name, and the programs that `subprocess.run` was called for.
pub record State : Type 0 where
  pub configs : List (ℕ × Bytes)
  pub started : List Command

-- "Success"; "Error" with status 400; "Error" with status 500.
pub data Answer : Type 0 where
  success bad_request failed : Answer

abbrev range : ℕ → ℕ → Bytes
range first zero = []
range first (suc n) = first ∷ range (first + 1) n

-- `string.ascii_letters + string.digits + "-"`
abbrev pub name_characters : Bytes
name_characters = range 97 26 ++ range 65 26 ++ range 48 10 ++ 45 ∷ []

-- And "."
abbrev pub domain_characters : Bytes
domain_characters = name_characters ++ 46 ∷ []

abbrev pub lookup : ℕ → List (ℕ × Bytes) → Option Bytes
lookup site_id [] = none
lookup site_id ((id, text) ∷ configs) =
    let rest = lookup site_id configs in if eqb id site_id then some text else rest

-- `os.remove`, where the file exists.
unfoldable pub remove_config : ℕ → List (ℕ × Bytes) → List (ℕ × Bytes)
remove_config site_id [] = []
remove_config site_id ((id, text) ∷ configs) =
    let rest = remove_config site_id configs in if eqb id site_id then rest else (id, text) ∷ rest

abbrev pub write_config : ℕ → Bytes → List (ℕ × Bytes) → List (ℕ × Bytes)
write_config site_id text configs = (site_id, text) ∷ remove_config site_id configs

module _ (H : Host) where
  -- Whether `subprocess.run` returns.
  abbrev pub start : Command → State → Bool × State
  start command s = (H.succeeds command, record s { started = s.started ++ command ∷ [] })

  -- What follows the assertions.
  abbrev pub write_and_reload :
      (site_id : ℕ) (name domains : Json) (elements : List Json) → State → Bool × State
  write_and_reload site_id name domains elements s =
      let removed : List (ℕ × Bytes) = elim elements [
        | [] ↦ remove_config site_id s.configs
        | _ ↦ s.configs
      ] in
      start reload
        (record s { configs = write_config site_id (H.render site_id name domains) removed })

  -- Whether it returns, and what it leaves.
  unfoldable pub update_config : ℕ → Json → State → Bool × State
  unfolding remove_config
  update_config site_id data' s = elim (get_field name_key data') [
    | none ↦ (false, s)
    | some name ↦
        if is_proper_subset name name_characters
        then elim (get_field custom_domains_key data') [
          | none ↦ (false, s)
          | some domains ↦ elim (iterate domains) [
            | none ↦ (false, s)
            | some elements ↦
                if all (λ domain. is_proper_subset domain domain_characters) elements
                then write_and_reload site_id name domains elements s
                else (false, s)
          ]
        ]
        else (false, s)
  ]

  abbrev pub page : Bool × State → Answer × State
  page (true, s) = (success, s)
  page (false, s) = (failed, s)

  -- The form's "data", if it is there.
  unfoldable pub update_nginx_page : ℕ → Option Bytes → State → Answer × State
  unfolding update_config
  update_nginx_page site_id none s = (bad_request, s)
  update_nginx_page site_id (some text) s = elim (H.json_loads text) [
    | none ↦ (failed, s)
    | some data' ↦ page (update_config site_id data' s)
  ]

  unfoldable pub remove_nginx_page : ℕ → State → Answer × State
  unfolding remove_config
  remove_nginx_page site_id s = (success, record s { configs = remove_config site_id s.configs })

  unfoldable pub setup_certbot_page : ℕ → Option Bytes → State → Answer × State
  setup_certbot_page site_id none s = (bad_request, s)
  setup_certbot_page site_id (some text) s = elim (H.json_loads text) [
    | none ↦ (failed, s)
    | some data' ↦ elim (get_field custom_domains_key data') [
      | none ↦ (failed, s)
      | some domains ↦ elim (iterate_texts domains) [
        | none ↦ (failed, s)
        | some arguments ↦ page (start (setup site_id arguments) s)
      ]
    ]
  ]

  -- `" ".join(domains)`
  abbrev pub join_spaces : List Bytes → Bytes
  join_spaces [] = []
  join_spaces (domain ∷ domains) =
      let rest = join_spaces domains in elim domains [ [] ↦ domain | _ ↦ domain ++ 32 ∷ rest ]

  -- Whether UTF-8 can write the text: a lone surrogate, which JSON may hold, makes `encode` raise.
  abbrev is_encodable : Bytes → Bool
  is_encodable cs = all (λ c. ltb c 0xD800 || ltb 0xDFFF c) cs

  unfoldable pub remove_old_certbot_domains_page : Option Bytes → State → Answer × State
  remove_old_certbot_domains_page none s = (bad_request, s)
  remove_old_certbot_domains_page (some text) s = elim (H.json_loads text) [
    | none ↦ (failed, s)
    | some data' ↦ elim (iterate_texts data') [
      | none ↦ (failed, s)
      | some domains ↦
          if is_encodable (join_spaces domains)
          then page (start (remove_old_domains (join_spaces domains)) s)
          else (failed, s)
    ]
  ]
