-- ===== src/Sites/Actions/Stores.antt =====
-- manager/director/apps/sites/actions.py: the files and the database of a site, and the balancers.
use director.Prelude.{ℕ, String, Option, none, some, List, [], ◌∷◌, eqb, if◌then◌else◌, length}
use director.Prelude.Text.{◌⊕◌, str}
use director.Prelude.Exec.{pure, ◌>>=◌, ◌>>◌}
use director.Balancer.{iter_pingable_balancers}
use director.Sites.Wrapper.{text, on_world}
use director.Sites.Models.{Database, Domain, DomainStatus}
use director.Sites.Serialize.{serialize_for_balancer, serialize_database}
use director.Sites.Actions.Base.{
  assertion_error, refused, websocket_error, balancer, Reply, lost, replied, Deps, Job, Emit,
  SiteCallback, site_path, show_list, fail, draw, on_net, get_site, get_domains, post, post_form,
  request, balancer_request, choose_appserver,
}

-- `Domain.objects.exclude(status="active").values_list("domain", flat=True)`
unfoldable pub inactive_domains : List Domain → List String
inactive_domains [] = []
inactive_domains (r ∷ rs) =
    let rest = inactive_domains rs in
    elim r.status [ DomainStatus.active ↦ rest | _ ↦ r.domain ∷ rest ]

module _ {W : Type 0} (d : Deps W) where
  unfoldable pub ensure_site_directories_exist : SiteCallback W
  unfolding choose_appserver request site_path
  ensure_site_directories_exist emit = do
    i ← choose_appserver d
    emit (text ("Connecting to appserver " ⊕ str i ⊕ " to ensure site directories exist"))
    s ← get_site
    request d i (site_path s.id "/ensure-directories-exist") (post d d.default_timeout)
    pure tt

  abbrev check_removed : Reply → Job W (Unit {0})
  check_removed (lost m) = fail (websocket_error m)
  check_removed (replied successful msg shown) = if successful then pure tt else fail (refused msg)

  -- With `remove_all_site_files_dangerous_async`.
  unfoldable pub remove_all_site_files_dangerous : SiteCallback W
  unfolding choose_appserver draw
  remove_all_site_files_dangerous emit = do
    i ← choose_appserver d
    emit (text ("Connecting to appserver " ⊕ str i ⊕ " to remove site files"))
    s ← get_site
    reply ←
        draw
          (d.websocket i ("/ws/sites/" ⊕ str s.id ⊕ "/files/remove-all-site-files-dangerous") none)
    check_removed reply
    emit (text "Removed site files")

  unfoldable pub update_balancers : Emit W → List ℕ → Job W (Unit {0})
  unfolding balancer_request site_path serialize_for_balancer
  update_balancers emit [] = pure tt
  update_balancers emit (i ∷ is) = do
    emit (text ("Updating balancer " ⊕ str i))
    s ← get_site
    domains ← get_domains
    balancer_request d i (site_path s.id "/update-nginx") (
        post_form d (("data", d.dumps_balancer (serialize_for_balancer domains s)) ∷ [])
          d.balancer_timeout)
    emit (text ("Updated balancer " ⊕ str i))
    update_balancers emit is

  unfoldable pub update_balancer_nginx_config : SiteCallback W
  unfolding on_net iter_pingable_balancers show_list update_balancers
  update_balancer_nginx_config emit = do
    emit (text "Pinging balancers")
    is ← on_net balancer (iter_pingable_balancers d.http d.balancers 2)
    emit (text ("Pingable balancers: " ⊕ show_list is))
    update_balancers emit is

  unfoldable pub remove_from_balancers : Emit W → List ℕ → Job W (Unit {0})
  unfolding balancer_request site_path
  remove_from_balancers emit [] = pure tt
  remove_from_balancers emit (i ∷ is) = do
    emit (text ("Removing Nginx config on balancer " ⊕ str i))
    s ← get_site
    balancer_request d i (site_path s.id "/remove-nginx") (post d d.balancer_timeout)
    emit (text ("Removed Nginx config on balancer " ⊕ str i))
    remove_from_balancers emit is

  unfoldable pub remove_balancer_nginx_config : SiteCallback W
  unfolding on_net iter_pingable_balancers show_list remove_from_balancers
  remove_balancer_nginx_config emit = do
    emit (text "Pinging balancers")
    is ← on_net balancer (iter_pingable_balancers d.http d.balancers 2)
    emit (text ("Pingable balancers: " ⊕ show_list is))
    remove_from_balancers emit is

  unfoldable pub update_balancer_certbot : SiteCallback W
  unfolding balancer_request site_path serialize_for_balancer inactive_domains
  update_balancer_certbot emit = if eqb (length d.balancers.hosts) 0 then pure tt else do
    emit (text "Setting up certbot for site")
    s ← get_site
    domains ← get_domains
    balancer_request d 0 (site_path s.id "/certbot-setup") (
        post_form d (("data", d.dumps_balancer (serialize_for_balancer domains s)) ∷ [])
          d.balancer_timeout)
    emit (text "Removing old domains")
    balancer_request d 0 "/sites/certbot-remove-old-domains" (
        post_form d (("domains", d.dumps_domains (inactive_domains domains)) ∷ [])
          d.balancer_timeout)
    pure tt

  -- `assert site.database is not None`
  abbrev the_database : Option Database → Job W Database
  the_database none = fail assertion_error
  the_database (some b) = pure b

  abbrev set_database : Option Database → Job W (Unit {0})
  set_database b = on_world (λ m. record m { site = record m.site { database = b } })

  -- Deleting the row of the database sets the site's reference to it to null.
  unfoldable pub delete_site_database_and_object : SiteCallback W
  unfolding choose_appserver request serialize_database
  delete_site_database_and_object emit = do
    s ← get_site
    b ← the_database s.database
    i ← choose_appserver d
    emit (text ("Connecting to appserver " ⊕ str i ⊕ " to delete real database"))
    request d i "/sites/databases/delete"
        (post_form d (("data", d.dumps_database (serialize_database s.id b)) ∷ []) 30)
    emit (text "Deleting database object in model")
    set_database none

  unfoldable pub create_real_site_database : SiteCallback W
  unfolding choose_appserver request serialize_database
  create_real_site_database emit = do
    s ← get_site
    b ← the_database s.database
    i ← choose_appserver d
    emit (text ("Connecting to appserver " ⊕ str i ⊕ " to create real site database"))
    request d i "/sites/databases/create"
        (post_form d (("data", d.dumps_database (serialize_database s.id b)) ∷ []) 30)
    pure tt

  unfoldable pub regen_database_password : SiteCallback W
  unfolding choose_appserver request serialize_database draw
  regen_database_password emit = do
    emit (text "Updating password in database model")
    s ← get_site
    b ← the_database s.database
    password ← draw d.gen_database_password
    let b' = record b { password = password }
    set_database (some b')
    i ← choose_appserver d
    emit (text ("Connecting to appserver " ⊕ str i ⊕ " to update real password"))
    request d i "/sites/databases/create"
        (post_form d (("data", d.dumps_database (serialize_database s.id b')) ∷ []) 30)
    pure tt
