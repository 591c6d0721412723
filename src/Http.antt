-- ===== src/Http.antt =====
-- What `urllib.request.urlopen`, `random` and `urllib.parse.urlencode` offer to
-- manager/director/utils/appserver.py and balancer.py.
use director.Prelude.{ℕ, ◌≤◌, String, Bool, Option, none, some, List, eqb}
use Prim.Native.Char.{code}

pub data Body : Type 0 where
  bytes : String → Body
  chunks : List String → Body

pub record Request : Type 0 where
  pub full_url : String
  pub method : String
  pub body : Option Body
  pub headers : List (String × String)
  pub timeout : ℕ

pub data Reason : Type 0 where
  connection_error timed_out other : Reason

-- The exceptions that `urlopen` raises: `HTTPError` with the body of the response, any other
-- `URLError`, `socket.timeout`, `ConnectionError`, any other `OSError`. `uncaught` is every other one, such as
-- `http.client.HTTPException` or `ValueError`, and what reading or decoding the body of an `HTTPError` raises.
pub data Raised : Type 0 where
  http_error : String → Raised
  url_error : Reason → String → Raised
  socket_timeout : String → Raised
  connection_error : String → Raised
  os_error : String → Raised
  uncaught : String → Raised

pub data Outcome : Type 0 where
  response : (content : String) → Outcome
  raised : Raised → Outcome

-- The world that the requests go to. Its state `W` changes with each request.
pub record World (W : Type 0) : Type 0 where
  pub urlopen : Request → W → Outcome × W
  pub randint : ℕ → W → ℕ × W
  pub urlencode : List (String × String) → String

-- `random.randint(0, n)` is at most `n`.
pub record IsFair {W : Type 0} (world : World W) : Type 0 where
  pub randint-le : (n : ℕ) (w : W) → (world.randint n w).0 ≤ n

-- The optional `data` argument.
pub data Payload : Type 0 where
  raw : String → Payload
  form : List (String × String) → Payload
  stream : List String → Payload

-- The keyword arguments.
pub record Args : Type 0 where
  pub method : String
  pub params : List (String × String)
  pub payload : Option Payload
  pub headers : List (String × String)
  pub timeout : ℕ

-- `path[0] == "/"`, with `none` for the `IndexError` on an empty path.
abbrev pub has_slash : String → Option Bool
has_slash String.[] = none
has_slash (String.◌∷◌ c s) = some (eqb (code c) b'/')
