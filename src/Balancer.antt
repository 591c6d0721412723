-- ===== src/Balancer.antt =====
-- manager/director/utils/balancer.py. The module is appserver.py over again, with its own hosts and
-- its own exception classes, and without websockets or a random order: each function here is that of
-- `Appserver` at the settings of the balancers. The body of an `HTTPError` is given decoded; one
-- that is not UTF-8, at which the strict decoding of balancer.py fails, is an `uncaught` exception.
use director.Prelude.{ℕ, String, Bool, false, List, []}
use director.Prelude.Exec.{Exec}
use director.Http.{World, Args, Raised}
use director.Appserver.{
  Settings, Exception, Target, AppserverHttpResponse, get_appserver_addr,
  appserver_open_http_request, ping_appserver, iter_pingable_appservers, classify,
}

-- The `DIRECTOR_BALANCER_…` settings.
pub record BalancerSettings : Type 0 where
  pub hosts : List String
  pub ssl : Bool

abbrev pub as_settings : BalancerSettings → Settings
as_settings b = record { hosts = b.hosts; ws_hosts = []; ssl = b.ssl }

-- `BalancerProtocolError`, `BalancerConnectionError`, `BalancerTimeoutError` and
-- `BalancerRequestError` are the constructors of `AppserverError` in the same order.
unfoldable pub classify_balancer : Raised → Exception
unfolding classify
classify_balancer r = classify r

module _ {W : Type 0} (world : World W) (b : BalancerSettings) where
  unfoldable pub get_balancer_addr : Target → Bool → Exec Exception W String
  unfolding get_appserver_addr
  get_balancer_addr target allow_random =
      get_appserver_addr world (as_settings b) target allow_random false

  unfoldable pub balancer_open_http_request :
      Target → String → Args → Exec Exception W AppserverHttpResponse
  unfolding appserver_open_http_request
  balancer_open_http_request = appserver_open_http_request world (as_settings b)

  unfoldable pub ping_balancer : ℕ → Target → Exec Exception W Bool
  unfolding ping_appserver
  ping_balancer = ping_appserver world (as_settings b)

  unfoldable pub iter_pingable_balancers : ℕ → Exec Exception W (List ℕ)
  unfolding iter_pingable_appservers
  iter_pingable_balancers = iter_pingable_appservers world (as_settings b)
