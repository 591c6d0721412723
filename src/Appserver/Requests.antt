-- ===== src/Appserver/Requests.antt =====
-- manager/director/utils/appserver.py: `get_appserver_addr`, `appserver_open_http_request` and the
-- address of `appserver_open_websocket`.
use director.Prelude.{
  ℕ, suc, ◌-◌, String, Bool, true, false, Option, none, some, List, [], ◌∷◌, eqb, if◌then◌else◌,
  length, get_elem?, ◌==◌,
}
use director.Prelude.Int.{ℤ, pos, negsuc}
use director.Prelude.Text.{◌⊕◌}
use director.Prelude.Exec.{Result, ok, err, Exec, pure, raise, lift, ◌>>=◌, ◌>>◌}
use director.Http.{
  Body, bytes, chunks, Request, connection_error, timed_out, other, Raised, http_error, url_error,
  socket_timeout, os_error, uncaught, Outcome, response, raised, World, Payload, raw, form, stream,
  Args, has_slash,
}

-- The exceptions of the module, and those of Python that its functions let through.
pub data AppserverError : Type 0 where
  protocol_error : String → AppserverError
  connection_failed : String → AppserverError
  timeout_error : String → AppserverError
  request_error : String → AppserverError

pub data Exception : Type 0 where
  assertion_error value_error index_error : Exception
  appserver_error : AppserverError → Exception
  other_exception : String → Exception

-- The `DIRECTOR_APPSERVER_…` settings; `ssl` is whether `DIRECTOR_APPSERVER_SSL` is set.
pub record Settings : Type 0 where
  pub hosts : List String
  pub ws_hosts : List String
  pub ssl : Bool

abbrev pub num_appservers : Settings → ℕ
num_appservers s = length s.hosts

-- `Union[int, str]`
pub data Target : Type 0 where
  index : ℤ → Target
  address : String → Target

-- `hosts[i]` for an index that is not negative.
unfoldable pub get_item : List String → ℕ → Result Exception String
get_item hosts i = elim (get_elem? hosts i) [ none ↦ err index_error | some h ↦ ok h ]

module _ {W : Type 0} (world : World W) (s : Settings) where
  abbrev pub host_list : Bool → List String
  host_list websocket = if websocket then s.ws_hosts else s.hosts

  unfoldable pub get_appserver_addr : Target → Bool → Bool → Exec Exception W String
  unfolding get_item
  get_appserver_addr (address a) allow_random websocket = pure a
  get_appserver_addr (index (pos i)) allow_random websocket =
      if eqb (num_appservers s) 0
      then raise assertion_error
      else lift (get_item (host_list websocket) i)
  get_appserver_addr (index (negsuc i)) allow_random websocket =
      if eqb (num_appservers s) 0
      then raise assertion_error
      else if allow_random
      then (λ w.
          let (i', w') = world.randint (num_appservers s - 1) w in
          (get_item (host_list websocket) i', w'))
      else raise value_error

  -- `"?" + urlencode(params) if params else ""`
  unfoldable pub query : List (String × String) → String
  query [] = ""
  query (p ∷ ps) = "?" ⊕ world.urlencode (p ∷ ps)

  -- The first two tests on `data`: an empty body for a POST, and a form is encoded.
  unfoldable pub encode_body : String → Option Payload → Option Body
  encode_body method none = if method == "POST" then some (bytes "") else none
  encode_body method (some (raw b)) = some (bytes b)
  encode_body method (some (form fields)) = some (bytes (world.urlencode fields))
  encode_body method (some (stream parts)) = some (chunks parts)

  unfoldable pub build_request : String → String → Args → Request
  unfolding query encode_body
  build_request addr path a = record {
    full_url = (if s.ssl then "https" else "http") ⊕ "://" ⊕ addr ⊕ path ⊕ query a.params;
    method = a.method;
    body = encode_body a.method a.payload;
    headers = a.headers;
    timeout = a.timeout;
  }

-- The `except` clauses around `urlopen`. What none of them catches is raised as it is.
unfoldable pub classify : Raised → Exception
classify (http_error body) = appserver_error (protocol_error body)
classify (url_error connection_error m) = appserver_error (connection_failed m)
classify (url_error timed_out m) = appserver_error (timeout_error m)
classify (url_error other m) = appserver_error (protocol_error m)
classify (socket_timeout m) = appserver_error (timeout_error m)
classify (Raised.connection_error m) = appserver_error (connection_failed m)
classify (os_error m) = appserver_error (request_error m)
classify (uncaught m) = other_exception m

-- `AppserverHTTPResponse`. The index is the first place of the address among the hosts, or -1.
pub record AppserverHttpResponse : Type 0 where
  pub appserver : String
  pub path : String
  pub full_url : String
  pub content : String
  pub appserver_index : ℤ

abbrev back_to : ℤ → ℤ
back_to (pos i) = pos (suc i)
back_to (negsuc i) = negsuc i

-- `hosts.index(a)`, and -1 where that raises.
unfoldable pub index_of : String → List String → ℤ
index_of a [] = negsuc 0
index_of a (h ∷ hosts) = if h == a then pos 0 else back_to (index_of a hosts)

-- `urlopen` and the handlers around it.
unfoldable pub receive : Outcome → Result Exception String
unfolding classify
receive (response content) = ok content
receive (raised r) = err (classify r)

module _ {W : Type 0} (world : World W) (s : Settings) where
  unfoldable pub send : Request → Exec Exception W String
  unfolding receive
  send request w = (receive (world.urlopen request w).0, (world.urlopen request w).1)

  abbrev pub check_path : String → Exec Exception W (Unit {0})
  check_path path = elim (has_slash path) [
    | none ↦ raise index_error
    | some slash ↦ if slash then pure tt else raise assertion_error
  ]

  unfoldable pub appserver_open_http_request :
      Target → String → Args → Exec Exception W AppserverHttpResponse
  unfolding get_appserver_addr build_request send index_of
  appserver_open_http_request target path a = do
    check_path path
    addr ← get_appserver_addr world s target true false
    let request = build_request world s addr path a
    content ← send request
    pure (record {
      appserver = addr;
      path = path;
      full_url = request.full_url;
      content = content;
      appserver_index = index_of addr s.hosts;
    })

  -- The URL that `appserver_open_websocket` connects to.
  unfoldable pub websocket_url : Target → String → List (String × String) → Exec Exception W String
  unfolding get_appserver_addr query
  websocket_url target path params = do
    check_path path
    addr ← get_appserver_addr world s target true true
    pure ((if s.ssl then "wss" else "ws") ⊕ "://" ⊕ addr ⊕ path ⊕ query world s params)
