-- ===== src/Sites/Actions/Recovery.antt =====
-- How `update_appserver_nginx_config` of manager/director/apps/sites/actions.py recovers: it takes the
-- configuration of the site away when the appservers refuse it.
use director.Prelude.{
  ℕ, ◌≡◌, refl, ◌∙◌, ap, String, true, none, some, List, [], ◌∷◌, ◌⊎◌, inl, inr, Bool-cases,
  Option-cases, eqb, get_elem?,
}
use director.Prelude.Int.{pos}
use package.text.Mathlib.TextLemmas.{cons-append}
use director.Prelude.Text.{◌⊕◌, str}
use director.Prelude.Exec.{Result, ok, err, continue, ◌>>◌}
use director.Http.{World, Request, Args, has_slash}
use director.Appserver.{
  Settings, Exception, assertion_error, index_error, appserver_error, other_exception,
  AppserverError, index, num_appservers, get_item, check_path, get_appserver_addr, build_request,
  send, appserver_open_http_request,
}
use director.Sites.Models.{Site}
use director.Sites.Wrapper.{text, RunError, callback_error, Current, handle_item}
use director.Sites.Actions.Base.{
  Failure, appserver, key_error, Deps, Manager, Job, wrap, site_path, post, request, on_net,
  get_pingable, choose_appserver, draw,
}
use director.Sites.Actions.Nginx.{
  disable_and_raise, send_nginx_config, reload_all, announce, submit_all, collect_errors,
  update_appserver_nginx_config, reload_nginx_on_appservers, raise_errors, try_else,
  request_error_of, on_error_of,
}

-- A world that keeps the requests, with the last one first.
pub record IsLogging {W : Type 0} (world : World W) (log : W → List Request) : Type 0 where
  pub logged : (r : Request) (w : W) → log (world.urlopen r w).1 ≡ r ∷ log w

-- An exception that is not an `AppserverRequestError`, raised before anything is sent.
abbrev IsEarly : Exception → Type 0
IsEarly (appserver_error e) = ⊥
IsEarly (other_exception e) = ⊥
IsEarly e = Unit

module _ {W : Type 0} (world : World W) (s : Settings) (log : W → List Request)
    (h : IsLogging world log) where
  continue-state :
      {A B : Type 0} (r : Result Exception A) (f : A → Result Exception B) (w : W)
      → (continue r (λ a w'. (f a, w')) w).1 ≡ w
  continue-state (ok a) f w = refl
  continue-state (err e) f w = refl

  -- A request to an index is sent, and then it is the last one, or the call raises early.
  open_logged :
      (i : ℕ) (path : String) (a : Args) (w : W)
      → has_slash path ≡ some true
      → ((addr : String) × (log (appserver_open_http_request world s (index (pos i)) path a w).1
            ≡ build_request world s addr path a ∷ log w))
        ⊎ ((e : Exception) × IsEarly e
            × ((appserver_open_http_request world s (index (pos i)) path a w).0 ≡ err e))
  unfolding appserver_open_http_request get_appserver_addr get_item send
  open_logged i path a w slash = elim (Bool-cases (eqb (num_appservers s) 0)) [
    | inl none_set ↦ inr (assertion_error, tt, rw (slash, check_path, none_set) refl)
    | inr some_set ↦ elim (Option-cases (get_elem? s.hosts i)) [
      | inl missing ↦
          inr (index_error, tt, rw (slash, check_path, some_set, missing, get_item) refl)
      | inr (addr, found) ↦ inl (
        addr,
        rw (slash, check_path, some_set, found, get_item)
            (ap log (continue-state (send world s (build_request world s addr path a) w).0 _ _)
              ∙ h.logged _ w),
      )
    ]
  ]

site_path-slash : (id : ℕ) (suffix : String) → has_slash (site_path id suffix) ≡ some true
unfolding site_path
site_path-slash id suffix = ap has_slash (cons-append "/" "sites/" (str id ⊕ suffix))

abbrev pub Raises : {A : Type 0} → AppserverError → Result (RunError Failure) A → Type 0
Raises e r = r ≡ err (callback_error (appserver (appserver_error e)))

early-Raises :
    {B : Type 0} (x : Exception) (e : AppserverError)
    → IsEarly x
    → Raises {A = B} e (err (callback_error (appserver x)))
    → ⊥
early-Raises assertion_error e early f = absurd (cc)
early-Raises Exception.value_error e early f = absurd (cc)
early-Raises index_error e early f = absurd (cc)
early-Raises (appserver_error y) e early f = absurd early
early-Raises (other_exception y) e early f = absurd early

ok-Raises : {B : Type 0} (b : B) (e : AppserverError) → Raises e (ok b) → ⊥
ok-Raises b e f = absurd (cc)

other-Raises :
    {B : Type 0} (x : RunError Failure) (e : AppserverError)
    → request_error_of x ≡ none
    → Raises {A = B} e (err x)
    → ⊥
other-Raises x e other f =
    let same : x ≡ callback_error (appserver (appserver_error e)) = cc in
    let found : request_error_of x ≡ some e = ap request_error_of same in absurd (cc)

module _ {W A B : Type 0} where
  -- What the steps behind a request keep, the request keeps too.
  sent_keeps :
      {X : Type 0} (p : Manager W → X) (r : Result Exception A) (k : A → Job W B)
      (c : Current (Manager W))
      → ((a : A) (c' : Current (Manager W)) → p (k a c').1.world ≡ p c'.world)
      → p (continue (wrap appserver r) k c).1.world ≡ p c.world
  sent_keeps p (ok a) k c same = same a c
  sent_keeps p (err e) k c same = refl

  continue_keeps :
      (r : Result (RunError Failure) A) (k : A → Job W B) (c : Current (Manager W))
      → ((a : A) (c' : Current (Manager W)) → (k a c').1.world.site ≡ c'.world.site)
      → (continue r k c).1.world.site ≡ c.world.site
  continue_keeps (ok a) k c same = same a c
  continue_keeps (err e) k c same = refl

module _ {W : Type 0} (d : Deps W) (log : W → List Request) (h : IsLogging d.http log) where
  -- The last request is the one that disables the configuration of the site.
  abbrev pub IsDisabled : ℕ → W → Type 0
  IsDisabled id w =
      (addr : String) × (rest : List Request) × (log w
        ≡ build_request d.http d.appservers addr (site_path id "/disable-nginx") (post d 120)
          ∷ rest)

  disable_and_raise-IsDisabled :
      (i : ℕ) (what : String) (ex e : AppserverError) (c : Current (Manager W))
      → Raises e (disable_and_raise d handle_item i what ex c).0
      → IsDisabled c.world.site.id (disable_and_raise d handle_item i what ex c).1.world.net
  unfolding disable_and_raise handle_item request on_net
  disable_and_raise-IsDisabled i what ex e c f =
      elim (open_logged d.http d.appservers log h i (site_path c.world.site.id "/disable-nginx")
        (post d 120) c.world.net (site_path-slash _ _)) [
          | inl (addr, sent) ↦
              (addr, log c.world.net, ap log (sent_keeps (λ m. m.net) _ _ _ (λ a c'. refl)) ∙ sent)
          | inr (x, early, raised) ↦ absurd (early-Raises x e early (rw raised at f))
        ]

  -- A block whose handler disables the configuration.
  on_error_of-IsDisabled :
      {A : Type 0} (i : ℕ) (what : String) (e : AppserverError) (site : Site)
      (r : Result (RunError Failure) A) (k : A → Job W (Unit {0})) (c : Current (Manager W))
      → c.world.site ≡ site
      → ((a : A) → Raises e (k a c).0 → IsDisabled site.id (k a c).1.world.net)
      → Raises e (on_error_of r (disable_and_raise d handle_item i what) k c).0
      → IsDisabled site.id (on_error_of r (disable_and_raise d handle_item i what) k c).1.world.net
  on_error_of-IsDisabled i what e site (ok a) k c same rest f = rest a f
  on_error_of-IsDisabled i what e site (err x) k c same rest f =
      elim (Option-cases (request_error_of x)) [
        | inl other ↦ absurd (other-Raises x e other (rw (other, on_error_of) at f))
        | inr (y, found) ↦
            rw (found, on_error_of, ← same)
              (disable_and_raise-IsDisabled i what y e c (rw (found, on_error_of) at f))
      ]

  send_nginx_config-site :
      (i : ℕ) (c : Current (Manager W))
      → (send_nginx_config d handle_item i c).1.world.site ≡ c.world.site
  unfolding send_nginx_config handle_item request on_net
  send_nginx_config-site i c = sent_keeps (λ m. m.site) _ _ _ (λ a c'. refl)

  announce_lem :
      (is : List ℕ) (c : Current (Manager W))
      → ((announce d handle_item is c).0 ≡ ok tt)
        × ((announce d handle_item is c).1.world ≡ c.world)
  unfolding handle_item
  announce_lem [] c = (refl, refl)
  announce_lem (i ∷ is) c = announce_lem is _

  submit_all-site :
      (timeout : ℕ) (is : List ℕ) (c : Current (Manager W))
      → (submit_all d timeout is c).1.world.site ≡ c.world.site
  unfolding submit_all request on_net
  submit_all-site timeout [] c = refl
  submit_all-site timeout (i ∷ is) c =
      continue_keeps _ _ _ (λ a c'. refl) ∙ submit_all-site timeout is _

  get_pingable_lem :
      (c : Current (Manager W))
      → ((is : List ℕ) × (get_pingable c ≡ (ok is, c)))
        ⊎ (get_pingable c ≡ (err (callback_error key_error), c))
  unfolding get_pingable
  get_pingable_lem c = elim (Option-cases c.world.pingable) [
    | inl absent ↦ inr (rw absent refl)
    | inr (is, found) ↦ inl (is, rw found refl)
  ]

  raise_errors-site :
      (r : Result (RunError Failure) (List String)) (c : Current (Manager W))
      → (raise_errors d r c).1.world.site ≡ c.world.site
  raise_errors-site (err e) c = refl
  raise_errors-site (ok []) c = refl
  raise_errors-site (ok (e ∷ es)) c = refl

  reload_nginx-site :
      (is : List ℕ) (timeout : ℕ) (c : Current (Manager W))
      → (reload_nginx_on_appservers d is timeout c).1.world.site ≡ c.world.site
  unfolding reload_nginx_on_appservers
  reload_nginx-site is timeout c =
      continue_keeps (submit_all d timeout is c).0 _ _
        (λ rs c'. raise_errors-site (collect_errors d rs) c')
      ∙ submit_all-site timeout is c

  reload_all-site :
      (c : Current (Manager W)) → (reload_all d handle_item c).1.world.site ≡ c.world.site
  unfolding reload_all handle_item
  reload_all-site c = elim (get_pingable_lem c) [
    | inl (is, found) ↦
        rw (found, (announce_lem is c).0)
          (reload_nginx-site is 180 (announce d handle_item is c).1
            ∙ ap (λ m. m.site) (announce_lem is c).1)
    | inr absent ↦ rw absent refl
  ]

  choose_appserver-site :
      (c : Current (Manager W))
      → ((i : ℕ) × (c' : Current (Manager W)) × (choose_appserver d c ≡ (ok i, c'))
          × (c'.world.site ≡ c.world.site))
        ⊎ ((x : RunError Failure) × (c' : Current (Manager W)) × (choose_appserver d c
              ≡ (err x, c'))
            × (request_error_of x ≡ none))
  unfolding choose_appserver get_pingable draw
  choose_appserver-site c = elim (get_pingable_lem c) [
    | inl ([], found) ↦ inr (callback_error Failure.index_error, c, rw found refl, refl)
    | inl (i ∷ is, found) ↦ inl (
      (d.choice i is c.world.net).0,
      record c { world = record c.world { net = (d.choice i is c.world.net).1 } },
      rw found refl,
      refl,
    )
    | inr absent ↦ inr (callback_error key_error, c, rw absent refl, refl)
  ]

  -- The `else` clause of the first `try`.
  abbrev finish : ℕ → Job W (Unit {0})
  finish i = do
    handle_item (text "Successfully updated Nginx config")
    handle_item (text "Reloading Nginx config on all appservers")
    try_else (reload_all d handle_item)
        (disable_and_raise d handle_item i "Error reloading Nginx config: ")
        λ _. handle_item (text "Successfully reloaded configuration")

  abbrev announcing : Job W (Unit {0})
  announcing = do
    handle_item (text "Successfully updated Nginx config")
    handle_item (text "Reloading Nginx config on all appservers")

  finish-IsDisabled :
      (i : ℕ) (e : AppserverError) (site : Site) (c : Current (Manager W))
      → c.world.site ≡ site
      → Raises e (finish i c).0
      → IsDisabled site.id (finish i c).1.world.net
  unfolding handle_item
  finish-IsDisabled i e site c same =
      on_error_of-IsDisabled i "Error reloading Nginx config: " e site
        (reload_all d handle_item (announcing c).1).0
        (λ _. handle_item (text "Successfully reloaded configuration"))
        (reload_all d handle_item (announcing c).1).1 (reload_all-site (announcing c).1 ∙ same)
        (λ b g. absurd (ok-Raises b e g))

  -- In a world that logs its requests: if `update_appserver_nginx_config` ends with an
  -- `AppserverRequestError`, then the last request of all is the POST that disables the configuration
  -- of the site on some appserver.
  pub update_appserver_nginx_config-IsDisabled :
      (c : Current (Manager W)) (e : AppserverError)
      → Raises e (update_appserver_nginx_config d handle_item c).0
      → IsDisabled c.world.site.id (update_appserver_nginx_config d handle_item c).1.world.net
  unfolding update_appserver_nginx_config handle_item
  update_appserver_nginx_config-IsDisabled c e f = elim (choose_appserver-site c) [
    | inl (i, c', chosen, same) ↦ rw chosen (
        on_error_of-IsDisabled i "Error updating Nginx config: " e c.world.site
          (send_nginx_config d handle_item i c').0 (λ _. finish i)
          (send_nginx_config d handle_item i c').1 (send_nginx_config-site i c' ∙ same)
          (λ a.
            finish-IsDisabled i e c.world.site (send_nginx_config d handle_item i c').1
              (send_nginx_config-site i c' ∙ same))
          (rw chosen at f))
    | inr (x, c', failed, other) ↦ absurd (other-Raises x e other (rw failed at f))
  ]
