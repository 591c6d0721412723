-- ===== src/Sites/Actions/Docker.antt =====
-- manager/director/apps/sites/actions.py: the Docker service and the Docker image of a site.
use director.Prelude.{
  ℕ, zero, suc, ◌+◌, String, Bool, true, false, not, some, [], ◌∷◌, any, eqb, if◌then◌else◌,
}
use director.Prelude.Text.{◌⊕◌, str}
use director.Prelude.Exec.{pure, ◌>>=◌, ◌>>◌}
use director.Http.{Args}
use director.Appserver.{num_appservers}
use director.Sites.Wrapper.{text}
use director.Sites.Models.{Site, Availability, disabled}
use director.Sites.Images.{serialize_image}
use director.Sites.Serialize.{serialize_for_appserver}
use director.Sites.Actions.Base.{
  refused, websocket_error, Reply, lost, replied, Deps, Job, Emit, SiteCallback, site_path, fail,
  draw, get_site, get_domains, get_pingable, post, post_form, request, choose_appserver,
}

abbrev pub is_disabled : Availability → Bool
is_disabled disabled = true
is_disabled _ = false

module _ {W : Type 0} (d : Deps W) where
  unfoldable pub remove_docker_service : SiteCallback W
  unfolding choose_appserver request site_path
  remove_docker_service emit = do
    i ← choose_appserver d
    emit (text ("Connecting to appserver " ⊕ str i ⊕ " to remove Docker service"))
    s ← get_site
    request d i (site_path s.id "/remove-docker-service") (post d d.default_timeout)
    emit (text "Removed Docker service")

  unfoldable pub update_docker_service : SiteCallback W
  unfolding remove_docker_service serialize_for_appserver
  update_docker_service emit = do
    s ← get_site
    if is_disabled s.availability then remove_docker_service emit else do
      i ← choose_appserver d
      emit (text ("Connecting to appserver " ⊕ str i ⊕ " to create/update Docker service"))
      domains ← get_domains
      request d i (site_path s.id "/update-docker-service") (
          post_form d (("data", d.dumps_site (serialize_for_appserver d.formats domains s)) ∷ [])
            d.default_timeout)
      emit (text "Created/updated Docker service")

  unfoldable pub restart_docker_service : SiteCallback W
  unfolding choose_appserver request site_path
  restart_docker_service emit = do
    s ← get_site
    if is_disabled s.availability then emit (text "Site disabled; skipping") else do
      i ← choose_appserver d
      emit (text ("Connecting to appserver " ⊕ str i ⊕ " to restart Docker service"))
      request d i (site_path s.id "/restart-docker-service") (post d d.default_timeout)
      emit (text "Restarted Docker service")

  abbrev check_reply : Reply → Job W (Unit {0})
  check_reply (lost m) = fail (websocket_error m)
  check_reply (replied successful msg shown) = if successful then pure tt else fail (refused msg)

  abbrev announce_reply : Emit W → Reply → Job W (Unit {0})
  announce_reply emit (lost m) = pure tt
  announce_reply emit (replied successful msg shown) = emit (text ("Result: " ⊕ shown))

  -- The items of `build_docker_image_async` are yielded again one by one.
  unfoldable pub build_docker_image_async : ℕ → String → Emit W → Job W (Unit {0})
  unfolding draw
  build_docker_image_async i sent emit = do
    emit (text ("Connecting to appserver " ⊕ str i ⊕ " to build Docker image"))
    reply ← draw (d.websocket i "/ws/sites/build-docker-image" (some sent))
    announce_reply emit reply
    check_reply reply

  -- The appserver that the site's hash names, or any that answered.
  unfoldable pub build_appserver : Site → Job W ℕ
  unfolding choose_appserver get_pingable
  build_appserver s = do
    let preferred = d.hash_mod (str s.id ⊕ s.name) (num_appservers d.appservers)
    is ← get_pingable
    if any (λ i. eqb i preferred) is then pure preferred else choose_appserver d

  unfoldable pub build_docker_image : SiteCallback W
  unfolding build_appserver build_docker_image_async serialize_image
  build_docker_image emit = do
    s ← get_site
    if not s.docker_image.is_custom
        then emit (text "Site does not have a custom Docker image; skipping")
        else do
          i ← build_appserver s
          build_docker_image_async i (d.dumps_image (serialize_image s.docker_image)) emit
          emit (text "Built Docker image")

  abbrev pub named : String → Args
  named name = record (post d d.default_timeout) { params = ("name", name) ∷ [] }

  -- The loop over `range(DIRECTOR_NUM_APPSERVERS)`, with `n` rounds left.
  unfoldable pub remove_image_from : String → Emit W → ℕ → ℕ → Job W (Unit {0})
  unfolding request
  remove_image_from name emit i zero = pure tt
  remove_image_from name emit i (suc n) = do
    emit (text ("Removing Docker image on appserver " ⊕ str i))
    request d i "/sites/remove-docker-image" (named name)
    emit (text ("Removing Docker image from registry on appserver " ⊕ str i))
    request d i "/sites/remove-registry-image" (named name)
    remove_image_from name emit (i + 1) n

  unfoldable pub remove_docker_image : SiteCallback W
  unfolding remove_image_from
  remove_docker_image emit = do
    s ← get_site
    if not s.docker_image.is_custom
        then emit (text "Site does not have a custom Docker image; skipping")
        else remove_image_from s.docker_image.name emit 0 (num_appservers d.appservers)
