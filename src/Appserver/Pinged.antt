-- ===== src/Appserver/Pinged.antt =====
-- What pings of manager/director/utils/appserver.py guarantee to their callers.
use text.Mathlib.TextLemmas.{cons-append}
use director.Prelude.Text.{◌⊕◌}
use director.Prelude.{
  ℕ, zero, suc, ◌+◌, ◌≤◌, ◌<◌, ◌≡◌, ◌≢◌, refl, ap, String, Bool, true, false, some, List, [], ◌∷◌,
  arith, eqb, if◌then◌else◌, IsAscending, filter_by,
}
use director.Prelude.Int.{pos}
use director.Prelude.Exec.{Result, ok, err, Exec, continue, handle}
use director.Http.{
  World, IsFair, Outcome, Reason, Raised, response, raised, http_error, url_error, socket_timeout,
  os_error, uncaught, Args, Request, has_slash,
}
use director.Appserver.Requests.{
  Settings, Exception, assertion_error, value_error, index_error, appserver_error, other_exception,
  AppserverHttpResponse, Target, index, address, num_appservers, get_appserver_addr, build_request,
  appserver_open_http_request,
}
use director.Appserver.Pings.{
  ping_once, on_request_error, ping_appserver, indices, pingable_from, iter_pingable_appservers,
}
use director.Appserver.Laws.{get_item-lt, IsTarget, IsHandled, open-IsHandled}

ping_path : (x : String) → has_slash ("/ping?" ⊕ x) ≡ some true
ping_path x = ap has_slash (cons-append "/" "ping?" x)

IsAscending-lower :
    (lo lo' : ℕ) (xs : List ℕ) (hi : ℕ) → lo ≤ lo' → IsAscending lo' xs hi → IsAscending lo xs hi
IsAscending-lower lo lo' [] hi h up = omega arith
IsAscending-lower lo lo' (x ∷ xs) hi h up = (omega arith, up.1)

IsAscending-if :
    (b : Bool) (i : ℕ) (is : List ℕ) (hi : ℕ)
    → IsAscending (i + 1) is hi
    → IsAscending i (if b then i ∷ is else is) hi
IsAscending-if true i is hi up = (omega arith, up)
IsAscending-if false i is hi up = IsAscending-lower i (i + 1) is hi (omega arith) up

-- Either the answer, or an error of the module's own class.
abbrev pub IsCaught : {A : Type 0} → Result Exception A → Type 0
IsCaught (ok a) = Unit
IsCaught (err (appserver_error e)) = Unit
IsCaught (err e) = ⊥

module _ {W A B : Type 0} where
  continue-IsCaught :
      (r : Result Exception A) (f : A → Exec Exception W B) (w : W)
      → IsCaught r
      → ((a : A) → r ≡ ok a → IsCaught (f a w).0)
      → IsCaught (continue r f w).0
  continue-IsCaught (ok a) f w h k = k a refl
  continue-IsCaught (err (appserver_error e)) f w h k = tt
  continue-IsCaught (err assertion_error) f w h k = absurd h
  continue-IsCaught (err value_error) f w h k = absurd h
  continue-IsCaught (err index_error) f w h k = absurd h
  continue-IsCaught (err (other_exception m)) f w h k = absurd h

module _ {W : Type 0} (world : World W) (s : Settings) where
  -- `urlopen` raises none of the exceptions that nothing catches.
  abbrev pub IsCalm : Type 0
  IsCalm = (r : Request) (w : W) (m : String) → (world.urlopen r w).0 ≢ raised (uncaught m)

  handled-IsCaught :
      (addr : String) (o : Outcome) (r : Result Exception AppserverHttpResponse)
      → ((m : String) → o ≢ raised (uncaught m))
      → IsHandled world s addr o r
      → IsCaught r
  handled-IsCaught addr (response content) r calm (x, e, _, _) = rw e tt
  handled-IsCaught addr (raised (http_error m)) r calm (x, e) = rw e tt
  handled-IsCaught addr (raised (url_error Reason.connection_error m)) r calm (x, e) = rw e tt
  handled-IsCaught addr (raised (url_error Reason.timed_out m)) r calm (x, e) = rw e tt
  handled-IsCaught addr (raised (url_error Reason.other m)) r calm (x, e) = rw e tt
  handled-IsCaught addr (raised (socket_timeout m)) r calm (x, e) = rw e tt
  handled-IsCaught addr (raised (Raised.connection_error m)) r calm (x, e) = rw e tt
  handled-IsCaught addr (raised (os_error m)) r calm (x, e) = rw e tt
  handled-IsCaught addr (raised (uncaught m)) r calm e = absurd (calm m refl)

  open-IsCaught :
      (calm : IsCalm) (fair : IsFair world) (target : Target) (path : String) (a : Args) (w : W)
      → IsTarget world s target
      → has_slash path ≡ some true
      → IsCaught (appserver_open_http_request world s target path a w).0
  open-IsCaught calm fair target path a w h slash =
      let (addr, w', _, end) = open-IsHandled world s fair target path a w h slash in
      handled-IsCaught addr _ _ (calm (build_request world s addr path a) w') end

  addr_index :
      (r : Bool) (i : ℕ) (w : W)
      → i < num_appservers s
      → (a : String) × (get_appserver_addr world s (index (pos i)) r false w ≡ (ok a, w))
  unfolding get_appserver_addr
  addr_index r i w h =
      let (a, e, _) = get_item-lt s.hosts i h in
      let busy : eqb (num_appservers s) 0 ≡ false = ground arith in (a, rw (busy, e))

  module _ (calm : IsCalm) (fair : IsFair world) (timeout : ℕ) where
    ping_once-IsCaught :
        (i : ℕ) (w : W)
        → i < num_appservers s
        → IsCaught (ping_once world s timeout (index (pos i)) w).0
    unfolding ping_once
    ping_once-IsCaught i w h =
        let (a, e) = addr_index false i w h in
        rw e (
          continue-IsCaught _ _ _ (open-IsCaught calm fair (address a) _ _ w tt (ping_path _))
            (λ response _. tt))

    caught :
        (r : Result Exception Bool) (w : W)
        → IsCaught r
        → (b : Bool) × ((handle r (on_request_error world s timeout) w).0 ≡ ok b)
    unfolding on_request_error
    caught (ok b) w h = (b, refl)
    caught (err (appserver_error e)) w h = (false, refl)
    caught (err assertion_error) w h = absurd h
    caught (err value_error) w h = absurd h
    caught (err index_error) w h = absurd h
    caught (err (other_exception m)) w h = absurd h

    ping_total :
        (i : ℕ) (w : W)
        → i < num_appservers s
        → (b : Bool) × ((ping_appserver world s timeout (index (pos i)) w).0 ≡ ok b)
    unfolding ping_appserver
    ping_total i w h = caught _ _ (ping_once-IsCaught i w h)

    pingable_from-IsAscending :
        (i n : ℕ) (w : W) (hi : ℕ)
        → i + n ≡ hi
        → hi ≤ num_appservers s
        → (is : List ℕ) × ((pingable_from world s timeout (indices i n) w).0 ≡ ok is)
          × IsAscending i is hi
    unfolding pingable_from indices
    pingable_from-IsAscending i zero w hi e h = ([], refl, omega arith)
    pingable_from-IsAscending i (suc n) w hi e h =
        let (b, found) = ping_total i w (omega arith) in
        let w' : W = (ping_appserver world s timeout (index (pos i)) w).1 in
        let (is, rest, up) = pingable_from-IsAscending (i + 1) n w' hi (omega arith) h in
        (if b then i ∷ is else is, rw (found, rest), IsAscending-if b i is hi up)

    pingable_from_steady :
        (answers : ℕ → Bool)
        → ((i : ℕ) (w' : W)
            → i < num_appservers s
            → (ping_appserver world s timeout (index (pos i)) w').0 ≡ ok (answers i))
        → (i n : ℕ) (w : W) → i + n ≤ num_appservers s
        → (pingable_from world s timeout (indices i n) w).0 ≡ ok (filter_by answers (indices i n))
    unfolding pingable_from indices
    pingable_from_steady answers steady i zero w h = refl
    pingable_from_steady answers steady i (suc n) w h =
        let w' : W = (ping_appserver world s timeout (index (pos i)) w).1 in
        rw
          (steady i w (omega arith), pingable_from_steady answers steady (i + 1) n w' (omega arith))
          (ground arith)

    -- With a `randint` that keeps its bound and without exceptions that nothing catches, whatever the answers
    -- are and however they change over time, `iter_pingable_appservers` returns: a strictly ascending list of indices of appservers that exist.
    pub iter_pingable-IsAscending :
        (w : W)
        → (is : List ℕ) × ((iter_pingable_appservers world s timeout w).0 ≡ ok is)
          × IsAscending 0 is (num_appservers s)
    unfolding iter_pingable_appservers
    iter_pingable-IsAscending w =
        pingable_from-IsAscending 0 (num_appservers s) w (num_appservers s) (omega arith)
          (omega arith)

    -- If each appserver answers its pings the same at any time, the list holds those that answer, in order.
    pub iter_pingable_steady :
        (answers : ℕ → Bool) (w : W)
        → ((i : ℕ) (w' : W)
            → i < num_appservers s
            → (ping_appserver world s timeout (index (pos i)) w').0 ≡ ok (answers i))
        → (iter_pingable_appservers world s timeout w).0
          ≡ ok (filter_by answers (indices 0 (num_appservers s)))
    unfolding iter_pingable_appservers
    iter_pingable_steady answers w steady =
        pingable_from_steady answers steady 0 (num_appservers s) w (omega arith)
