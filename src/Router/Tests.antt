-- ===== src/Router/Tests.antt =====
-- Runs of router/router/app.py.
use director.Prelude.{Bytes, true, Option, none, some, [], ◌∷◌, ◌≡◌, refl, eqb, if◌then◌else◌}
use director.Router.{
  reload, Host, State, success, bad_request, failed, update_nginx_page, remove_nginx_page,
  remove_config, setup_certbot_page, remove_old_certbot_domains_page, setup, remove_old_domains,
}
use director.Router.Values.{
  Json, get_field, is_proper_subset, iterate_texts, text, array, object, item, no_items, member,
  no_members, name_key, custom_domains_key,
}
use director.Router.Frame.{IsUpdated, update_nginx_page-IsUpdated}

abbrev request : Json → Json → Json
request name domains = object (member name_key name (member custom_domains_key domains no_members))

-- JSON that is a name, for a site with one domain, or with none when it begins with "-". With "{" the name is an
-- object whose key is "a" and whose value is "; }". With "[" it is a list of two texts.
abbrev parse : Bytes → Option Json
parse [] = none
parse (c ∷ cs) = some (
    if eqb c 123
    then request (object (member (97 ∷ []) (text (59 ∷ 32 ∷ 125 ∷ [])) no_members)) (array no_items)
    else (if eqb c 91
        then array (item (text cs) (item (text cs) no_items))
        else request (text (c ∷ cs))
            (array (if eqb c 45 then no_items else item (text (c ∷ [])) no_items))))

-- The rendered name: a text as it is, and "{…}" for an object.
abbrev shown : Json → Bytes
shown (text cs) = cs
shown (object (member key (text cs) ms)) = 123 ∷ cs
shown j = []

abbrev host : Host
host = record {
  render = λ site_id name domains. shown name;
  json_loads = parse;
  succeeds = λ command. true;
}

abbrev state : State
state = record { configs = (1, 97 ∷ []) ∷ (2, 98 ∷ []) ∷ []; started = [] }

-- A name with a slash is refused, and one with letters is written.
update_nginx_page_test :
    (update_nginx_page host 1 (some (47 ∷ [])) state ≡ (failed, state))
    × (update_nginx_page host 1 none state ≡ (bad_request, state))
    × (update_nginx_page host 1 (some (99 ∷ [])) state
        ≡ (success, record { configs = (1, 99 ∷ []) ∷ (2, 98 ∷ []) ∷ []; started = reload ∷ [] }))
unfolding update_nginx_page remove_config get_field is_proper_subset
update_nginx_page_test = (refl, refl, refl)

-- A name that is an object is tested by its keys alone, and rendered whole.
object_test : update_nginx_page host 1 (some (123 ∷ [])) state ≡ (
  success,
  record { configs = (1, 123 ∷ 59 ∷ 32 ∷ 125 ∷ []) ∷ (2, 98 ∷ []) ∷ []; started = reload ∷ [] },
)
unfolding update_nginx_page remove_config get_field is_proper_subset
object_test = refl

-- Without custom domains the file is removed, and then written all the same.
no_domains_test :
    (update_nginx_page host 1 (some (45 ∷ [])) state).1.configs ≡ (1, 45 ∷ []) ∷ (2, 98 ∷ []) ∷ []
unfolding update_nginx_page remove_config get_field is_proper_subset
no_domains_test = refl

certbot_test :
    (setup_certbot_page host 1 (some (99 ∷ [])) state
      ≡ (success, record state { started = setup 1 ((99 ∷ []) ∷ []) ∷ [] }))
    × (remove_old_certbot_domains_page host (some (91 ∷ 99 ∷ [])) state
        ≡ (success, record state { started = remove_old_domains (99 ∷ 32 ∷ 99 ∷ []) ∷ [] }))
    × ((remove_nginx_page host 1 state).1.configs ≡ (2, 98 ∷ []) ∷ [])
unfolding setup_certbot_page remove_old_certbot_domains_page remove_nginx_page get_field
    iterate_texts
certbot_test = (refl, refl, refl)

update_nginx_page-IsUpdated_example :
    IsUpdated host 1 (some (99 ∷ [])) state (update_nginx_page host 1 (some (99 ∷ [])) state)
update_nginx_page-IsUpdated_example = update_nginx_page-IsUpdated host 1 (some (99 ∷ [])) state
