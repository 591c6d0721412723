-- ===== src/Appserver/Pings.antt =====
-- manager/director/utils/appserver.py: `ping_appserver` and the iterators over the appservers that
-- answer.
use director.Prelude.{
  ℕ, zero, suc, ◌+◌, String, Bool, false, List, [], ◌∷◌, none, ◌==◌, if◌then◌else◌,
}
use director.Prelude.Int.{pos}
use director.Prelude.Text.{◌⊕◌, str_ℤ}
use director.Prelude.Exec.{Exec, pure, raise, try_except, ◌>>=◌}
use director.Http.{World, Args}
use director.Appserver.Requests.{
  Settings, Exception, appserver_error, Target, index, address, num_appservers, get_appserver_addr,
  appserver_open_http_request,
}

-- `"{}".format(appserver)`
unfoldable pub show_target : Target → String
unfolding str_ℤ
show_target (index i) = str_ℤ i
show_target (address a) = a

-- `range(i, i + n)`
unfoldable pub indices : ℕ → ℕ → List ℕ
indices i zero = []
indices i (suc n) = i ∷ indices (i + 1) n

-- The arguments of a plain GET request.
abbrev pub get_args : ℕ → Args
get_args timeout = record {
  method = "GET";
  params = [];
  payload = none;
  headers = [];
  timeout = timeout;
}

module _ {W : Type 0} (world : World W) (s : Settings) (timeout : ℕ) where
  -- The body of the `try`, and whether the answer repeats the message.
  unfoldable pub ping_once : Target → Exec Exception W Bool
  unfolding show_target
  ping_once target = do
    let message = "Pong " ⊕ show_target target
    addr ← get_appserver_addr world s target false false
    response ←
        appserver_open_http_request world s (address addr)
          ("/ping?" ⊕ world.urlencode (("message", message) ∷ [])) (get_args timeout)
    pure (response.content == message)

  -- `except AppserverRequestError: return False`
  unfoldable pub on_request_error : Exception → Exec Exception W Bool
  on_request_error (appserver_error e) = pure false
  on_request_error e = raise e

  unfoldable pub ping_appserver : Target → Exec Exception W Bool
  unfolding ping_once on_request_error
  ping_appserver target = try_except (ping_once target) on_request_error

  -- The loop of the two iterators, over the indices that are left.
  unfoldable pub pingable_from : List ℕ → Exec Exception W (List ℕ)
  pingable_from [] = pure []
  pingable_from (i ∷ is) = do
    answered ← ping_appserver (index (pos i))
    rest ← pingable_from is
    pure (if answered then i ∷ rest else rest)

  -- `list(iter_pingable_appservers())`
  unfoldable pub iter_pingable_appservers : Exec Exception W (List ℕ)
  unfolding pingable_from indices
  iter_pingable_appservers = pingable_from (indices 0 (num_appservers s))

  -- `list(iter_random_pingable_appservers())`, with the order that `random.shuffle` made
  unfoldable pub iter_random_pingable_appservers : List ℕ → Exec Exception W (List ℕ)
  unfolding pingable_from
  iter_random_pingable_appservers shuffled = pingable_from shuffled
