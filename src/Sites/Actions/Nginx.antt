-- ===== src/Sites/Actions/Nginx.antt =====
-- manager/director/apps/sites/actions.py: the Nginx configuration of a site on the appservers.
use director.Prelude.{ℕ, String, Option, none, some, List, [], ◌∷◌}
use director.Prelude.Text.{◌⊕◌, str, join}
use director.Prelude.Exec.{Result, ok, err, pure, raise, ◌>>=◌, ◌>>◌}
use director.Appserver.{AppserverError, appserver_error, protocol_error, AppserverHttpResponse}
use director.Sites.Wrapper.{text, RunError, callback_error}
use director.Sites.Serialize.{serialize_for_appserver}
use director.Sites.Actions.Base.{
  Failure, appserver, Deps, Job, Emit, SiteCallback, site_path, show_error, fail, get_site,
  get_domains, get_pingable, post, post_form, request, choose_appserver,
}

-- An `AppserverRequestError`, or any other exception.
abbrev pub request_error_of : RunError Failure → Option AppserverError
request_error_of (callback_error (appserver (appserver_error e))) = some e
request_error_of e = none

module _ {W : Type 0} where
  -- `try: m / except AppserverRequestError as ex: h / else: k`
  abbrev pub on_error_of :
      {A B : Type 0}
      → Result (RunError Failure) A
      → (AppserverError → Job W B)
      → (A → Job W B)
      → Job W B
  on_error_of (ok a) h k = k a
  on_error_of (err e) h k = elim (request_error_of e) [ none ↦ raise e | some x ↦ h x ]

  abbrev pub try_else :
      {A B : Type 0} → Job W A → (AppserverError → Job W B) → (A → Job W B) → Job W B
  try_else m h k c = let (r, c') = m c in on_error_of r h k c'

  -- Runs `m`, and gives its exception as a value: `executor.submit`.
  unfoldable pub attempt : {A : Type 0} → Job W A → Job W (Result (RunError Failure) A)
  attempt m c = let (r, c') = m c in (ok r, c')

module _ {W : Type 0} (d : Deps W) where
  -- The futures of `reload_nginx_on_appservers`, with the requests in the order of the list.
  unfoldable pub submit_all :
      ℕ → List ℕ → Job W (List (ℕ × Result (RunError Failure) AppserverHttpResponse))
  unfolding request attempt
  submit_all timeout [] = pure []
  submit_all timeout (i ∷ is) = do
    r ← attempt (request d i "/sites/reload-nginx" (post d timeout))
    rs ← submit_all timeout is
    pure ((i, r) ∷ rs)

  -- The loop over the futures: the texts of the errors, or the first other exception.
  unfoldable pub collect_errors :
      List (ℕ × Result (RunError Failure) AppserverHttpResponse)
      → Result (RunError Failure) (List String)
  unfolding show_error
  collect_errors [] = ok []
  collect_errors ((i, ok r) ∷ rs) = collect_errors rs
  collect_errors ((i, err e) ∷ rs) =
      let rest = collect_errors rs in
      elim (request_error_of e) [
        | none ↦ err e
        | some x ↦ elim rest [
          | err e' ↦ err e'
          | ok errors ↦ ok (("appserver " ⊕ str i ⊕ ": " ⊕ show_error x) ∷ errors)
        ]
      ]

  abbrev pub raise_errors : Result (RunError Failure) (List String) → Job W (Unit {0})
  raise_errors (err e) = raise e
  raise_errors (ok []) = pure tt
  raise_errors (ok (e ∷ es)) =
      fail (appserver (appserver_error (protocol_error (join "; " (e ∷ es)))))

  unfoldable pub reload_nginx_on_appservers : List ℕ → ℕ → Job W (Unit {0})
  unfolding submit_all collect_errors
  reload_nginx_on_appservers is timeout = do
    rs ← submit_all timeout is
    raise_errors (collect_errors rs)

  abbrev pub announce : Emit W → List ℕ → Job W (Unit {0})
  announce emit [] = pure tt
  announce emit (i ∷ is) = do
    emit (text ("Reloading Nginx config on appserver " ⊕ str i))
    announce emit is

  -- What both handlers do: disable the configuration of the site, and raise the exception again.
  unfoldable pub disable_and_raise : Emit W → ℕ → String → AppserverError → Job W (Unit {0})
  unfolding request site_path show_error
  disable_and_raise emit i what ex = do
    emit (text (what ⊕ show_error ex))
    emit (text "Disabling site Nginx config")
    s ← get_site
    request d i (site_path s.id "/disable-nginx") (post d 120)
    emit (text "Re-raising exception")
    fail (appserver (appserver_error ex))

  unfoldable pub send_nginx_config : Emit W → ℕ → Job W (Unit {0})
  unfolding request site_path serialize_for_appserver
  send_nginx_config emit i = do
    emit (text ("Connecting to appserver " ⊕ str i ⊕ " to update Nginx config"))
    s ← get_site
    domains ← get_domains
    request d i (site_path s.id "/update-nginx")
        (post_form d (("data", d.dumps_site (serialize_for_appserver d.formats domains s)) ∷ []) 60)
    pure tt

  unfoldable pub reload_all : Emit W → Job W (Unit {0})
  unfolding reload_nginx_on_appservers get_pingable
  reload_all emit = do is ← get_pingable; announce emit is; reload_nginx_on_appservers is 180

  unfoldable pub update_appserver_nginx_config : SiteCallback W
  unfolding choose_appserver send_nginx_config disable_and_raise reload_all
  update_appserver_nginx_config emit = do
    i ← choose_appserver d
    try_else (send_nginx_config emit i) (disable_and_raise emit i "Error updating Nginx config: ")
        λ _. do
          emit (text "Successfully updated Nginx config")
          emit (text "Reloading Nginx config on all appservers")
          try_else (reload_all emit) (disable_and_raise emit i "Error reloading Nginx config: ")
              λ _. emit (text "Successfully reloaded configuration")

  unfoldable pub remove_appserver_nginx_config : SiteCallback W
  unfolding choose_appserver request site_path reload_all
  remove_appserver_nginx_config emit = do
    i ← choose_appserver d
    emit (text ("Connecting to appserver " ⊕ str i ⊕ " to remove Nginx config"))
    s ← get_site
    request d i (site_path s.id "/remove-nginx") (post d 60)
    emit (text "Reloading Nginx config on all appservers")
    reload_all emit
    emit (text "Done")
