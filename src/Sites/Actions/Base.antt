-- ===== src/Sites/Actions/Base.antt =====
-- manager/director/apps/sites/actions.py: the state that the actions work on, their requests to the
-- appservers, and `find_pingable_appservers`.
use director.Prelude.{ℕ, String, Bool, Option, none, some, List, [], ◌∷◌, map}
use director.Prelude.Int.{pos}
use director.Prelude.Text.{◌⊕◌, str, join}
use director.Prelude.Exec.{Result, ok, err, raise, gets, ◌>>=◌, ◌>>◌}
use director.Http.{World, Args, form}
use director.Appserver.{
  Settings, Exception, AppserverError, protocol_error, connection_failed, timeout_error,
  request_error, index, AppserverHttpResponse, appserver_open_http_request,
  iter_pingable_appservers,
}
use director.Balancer.{BalancerSettings, balancer_open_http_request}
use director.Sites.Models.{Site, Domain}
use director.Sites.Images.{ImageData}
use director.Sites.Serialize.{Formats, SiteData, BalancerData, DatabaseData}
use director.Sites.Wrapper.{Item, text, RunError, callback_error, Gen, Callback, on_world}

-- What an action raises: an exception of a request to an appserver or to a balancer, one of Python,
-- a lost websocket, or `Exception(result["msg"])`.
pub data Failure : Type 0 where
  appserver balancer : Exception → Failure
  index_error key_error assertion_error does_not_exist : Failure
  multiple_objects integrity_error validation_error : Failure
  websocket_error refused : String → Failure

-- The answer to one exchange over a websocket: `result["successful"]`, `result["msg"]`, and the text of
-- `result`.
pub data Reply : Type 0 where
  lost : String → Reply
  replied : (successful : Bool) (msg shown : String) → Reply

-- What the actions use and do not implement. `random.choice` is given a list that is not empty;
-- `hash_mod t n` is `hash(t) % n`; the `dumps_…` are `json.dumps`.
pub record Deps (W : Type 0) : Type 0 where
  pub http : World W
  pub appservers : Settings
  pub balancers : BalancerSettings
  pub default_timeout : ℕ
  pub balancer_timeout : ℕ
  pub formats : Formats
  pub choice : ℕ → List ℕ → W → ℕ × W
  pub hash_mod : String → ℕ → ℕ
  pub websocket : ℕ → String → Option String → W → Reply × W
  pub gen_database_password : W → String × W
  pub dumps_site : SiteData → String
  pub dumps_balancer : BalancerData → String
  pub dumps_database : DatabaseData → String
  pub dumps_image : ImageData → String
  pub dumps_domains : List String → String

-- The row of the site, the names of all other sites, the rows of the domains, `scope["pingable_appservers"]`, and the network.
pub record Manager (W : Type 0) : Type 0 where
  pub site : Site
  pub other_names : List String
  pub domains : List Domain
  pub pingable : Option (List ℕ)
  pub net : W

abbrev pub Job : Type 0 → Type 0 → Type 0
Job W A = Gen Failure (Manager W) A

abbrev pub Emit : Type 0 → Type 0
Emit W = Item → Job W (Unit {0})

abbrev pub SiteCallback : Type 0 → Type 0
SiteCallback W = Callback Failure (Manager W)

-- `"/sites/{}…".format(site.id)`
unfoldable pub site_path : ℕ → String → String
site_path id suffix = "/sites/" ⊕ str id ⊕ suffix

unfoldable pub show_list : List ℕ → String
show_list is = "[" ⊕ join ", " (map str is) ⊕ "]"

-- `"{}: {}".format(ex.__class__.__name__, ex)`
unfoldable pub show_error : AppserverError → String
show_error (protocol_error m) = "AppserverProtocolError: " ⊕ m
show_error (connection_failed m) = "AppserverConnectionError: " ⊕ m
show_error (timeout_error m) = "AppserverTimeoutError: " ⊕ m
show_error (request_error m) = "AppserverRequestError: " ⊕ m

abbrev pub wrap :
    {A : Type 0} → (Exception → Failure) → Result Exception A → Result (RunError Failure) A
wrap f (ok a) = ok a
wrap f (err e) = err (callback_error (f e))

module _ {W : Type 0} where
  abbrev pub fail : {A : Type 0} → Failure → Job W A
  fail e = raise (callback_error e)

  -- A call that works on the network alone.
  unfoldable pub on_net :
      {A : Type 0} → (Exception → Failure) → (W → Result Exception A × W) → Job W A
  on_net f m c =
      let (r, w) = m c.world.net in (wrap f r, record c { world = record c.world { net = w } })

  unfoldable pub draw : {A : Type 0} → (W → A × W) → Job W A
  draw m c = let (a, w) = m c.world.net in (ok a, record c { world = record c.world { net = w } })

  abbrev pub get_site : Job W Site
  get_site = gets (λ c. c.world.site)

  abbrev pub get_domains : Job W (List Domain)
  get_domains = gets (λ c. c.world.domains)

  -- `scope["pingable_appservers"]`
  unfoldable pub get_pingable : Job W (List ℕ)
  get_pingable c = elim c.world.pingable [
    | none ↦ (err (callback_error key_error), c)
    | some is ↦ (ok is, c)
  ]

module _ {W : Type 0} (d : Deps W) where
  abbrev pub post : ℕ → Args
  post timeout = record {
    method = "POST";
    params = [];
    payload = none;
    headers = [];
    timeout = timeout;
  }

  abbrev pub post_form : List (String × String) → ℕ → Args
  post_form fields timeout = record {
    method = "POST";
    params = [];
    payload = some (form fields);
    headers = [];
    timeout = timeout;
  }

  unfoldable pub request : ℕ → String → Args → Job W AppserverHttpResponse
  unfolding on_net appserver_open_http_request
  request i path a =
      on_net appserver (appserver_open_http_request d.http d.appservers (index (pos i)) path a)

  unfoldable pub balancer_request : ℕ → String → Args → Job W AppserverHttpResponse
  unfolding on_net balancer_open_http_request
  balancer_request i path a =
      on_net balancer (balancer_open_http_request d.http d.balancers (index (pos i)) path a)

  -- `random.choice(scope["pingable_appservers"])`, an `IndexError` on an empty list.
  abbrev pick : List ℕ → Job W ℕ
  pick [] = fail index_error
  pick (i ∷ is) = draw (d.choice i is)

  unfoldable pub choose_appserver : Job W ℕ
  unfolding get_pingable draw
  choose_appserver = do is ← get_pingable; pick is

  unfoldable pub find_pingable_appservers : SiteCallback W
  unfolding on_net iter_pingable_appservers show_list
  find_pingable_appservers emit = do
    emit (text "Pinging appservers")
    is ← on_net appserver (iter_pingable_appservers d.http d.appservers 2)
    emit (text ("Pingable appservers: " ⊕ show_list is))
    on_world (λ m. record m { pingable = some is })
