-- ===== src/Appserver/Laws.antt =====
-- What requests of manager/director/utils/appserver.py guarantee to their callers.
use director.Prelude.{
  ℕ, zero, suc, ◌-◌, ◌<◌, ◌≡◌, refl, String, true, false, some, List, [], ◌∷◌, arith, eqb, length,
  get_elem?,
}
use director.Prelude.Int.{ℤ, pos, negsuc}
use director.Prelude.Exec.{Result, ok, err, continue}
use director.Http.{
  World, IsFair, Outcome, Reason, Raised, response, raised, http_error, url_error, socket_timeout,
  os_error, uncaught, Args, has_slash,
}
use director.Appserver.Requests.{
  Settings, Exception, appserver_error, other_exception, AppserverError, AppserverHttpResponse,
  Target, index, address, num_appservers, get_item, receive, check_path, get_appserver_addr,
  build_request, send, appserver_open_http_request,
}

pub get_elem?-lt {ℓ} :
    {A : Type ℓ} (xs : List A) (i : ℕ) → i < length xs → (a : A) × (get_elem? xs i ≡ some a)
get_elem?-lt [] i h = absurd (omega arith)
get_elem?-lt (x ∷ xs) zero h = (x, refl)
get_elem?-lt (x ∷ xs) (suc i) h = get_elem?-lt xs i (omega arith)

pub get_item-lt :
    (hosts : List String) (i : ℕ)
    → i < length hosts
    → (a : String) × (get_item hosts i ≡ ok a) × (get_elem? hosts i ≡ some a)
unfolding get_item
get_item-lt hosts i h = let (a, e) = get_elem?-lt hosts i h in (a, rw (e, get_item), e)

module _ {W : Type 0} (world : World W) (s : Settings) where
  -- A target that names an appserver: an address, an index in range, or any negative index.
  abbrev pub IsTarget : Target → Type 0
  IsTarget (address a) = Unit
  IsTarget (index (pos i)) = i < num_appservers s
  IsTarget (index (negsuc i)) = 0 < num_appservers s

  -- The address of that appserver; of any of them, for a negative index.
  abbrev pub IsAddress : Target → String → Type 0
  IsAddress (address a) addr = addr ≡ a
  IsAddress (index (pos i)) addr = get_elem? s.hosts i ≡ some addr
  IsAddress (index (negsuc i)) addr = (j : ℕ) × (get_elem? s.hosts j ≡ some addr)

  addr_total :
      (fair : IsFair world) (target : Target) (w : W)
      → IsTarget target
      → (a : String) × (w' : W) × (get_appserver_addr world s target true false w ≡ (ok a, w'))
        × IsAddress target a
  unfolding get_appserver_addr
  addr_total fair (address a) w h = (a, w, refl, refl)
  addr_total fair (index (pos i)) w h =
      let (a, e, found) = get_item-lt s.hosts i h in
      let busy : eqb (num_appservers s) 0 ≡ false = ground arith in (a, w, rw (busy, e), found)
  addr_total fair (index (negsuc i)) w h =
      let j : ℕ = (world.randint (num_appservers s - 1) w).0 in
      let (a, e, found) =
        get_item-lt s.hosts j (omega (arith, fair.randint-le (num_appservers s - 1) w)) in
      let busy : eqb (num_appservers s) 0 ≡ false = ground arith in
      (a, (world.randint (num_appservers s - 1) w).1, rw (busy, e), (j, found))

  -- What the caller gets for what `urlopen` did.
  abbrev pub IsHandled : String → Outcome → Result Exception AppserverHttpResponse → Type 0
  IsHandled addr (response content) r =
      (x : AppserverHttpResponse) × (r ≡ ok x) × (x.content ≡ content) × (x.appserver ≡ addr)
  IsHandled addr (raised (uncaught m)) r = r ≡ err (other_exception m)
  IsHandled addr (raised e) r = (x : AppserverError) × (r ≡ err (appserver_error x))

  handled :
      (addr path url : String) (i : ℤ) (o : Outcome) (w : W)
      → IsHandled addr o
          (continue
            (receive o)
            (λ content w. (
              ok (record {
                appserver = addr;
                path = path;
                full_url = url;
                content = content;
                appserver_index = i;
              }),
              w,
            ))
            w).0
  unfolding receive
  handled addr path url i (response content) w = (_, refl, refl, refl)
  handled addr path url i (raised (http_error m)) w = (_, refl)
  handled addr path url i (raised (url_error Reason.connection_error m)) w = (_, refl)
  handled addr path url i (raised (url_error Reason.timed_out m)) w = (_, refl)
  handled addr path url i (raised (url_error Reason.other m)) w = (_, refl)
  handled addr path url i (raised (socket_timeout m)) w = (_, refl)
  handled addr path url i (raised (Raised.connection_error m)) w = (_, refl)
  handled addr path url i (raised (os_error m)) w = (_, refl)
  handled addr path url i (raised (uncaught m)) w = refl

  -- With a `randint` that keeps its bound, a request to an appserver that exists, at a path with a
  -- leading slash, is sent to its address. What `urlopen` then does decides the rest: a response is
  -- returned with its content and that address, an `HTTPError`, `URLError` or `OSError` of any kind
  -- becomes an `AppserverRequestError`, and any other exception is raised as it is.
  pub open-IsHandled :
      (fair : IsFair world) (target : Target) (path : String) (a : Args) (w : W)
      → IsTarget target
      → has_slash path ≡ some true
      → (addr : String) × (w' : W) × IsAddress target addr
        × IsHandled addr
            (world.urlopen (build_request world s addr path a) w').0
            (appserver_open_http_request world s target path a w).0
  unfolding appserver_open_http_request send
  open-IsHandled fair target path a w h slash =
      let (addr, w', e, found) = addr_total fair target w h in
      (addr, w', found, rw (slash, check_path, e) (handled addr path _ _ _ _))
