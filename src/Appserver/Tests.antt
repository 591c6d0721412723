-- ===== src/Appserver/Tests.antt =====
-- Runs of manager/director/utils/appserver.py and the theorems at concrete inputs.
use director.Prelude.{
  ℕ, zero, suc, ◌+◌, if◌then◌else◌, ◌==◌, ◌<◌, ◌≡◌, refl, true, String, none, some, [], get_elem?,
  ◌∷◌, arith, eqb,
}
use director.Prelude.Int.{pos, negsuc}
use director.Prelude.Exec.{ok, err}
use director.Http.{World, IsFair, Args, Outcome, response, raised, socket_timeout, uncaught}
use director.Appserver.{
  Settings, other_exception, index, get_appserver_addr, appserver_open_http_request, ping_appserver,
  iter_pingable_appservers,
}
use director.Appserver.Laws.{IsHandled, open-IsHandled}

-- The world counts the requests. It answers the pings of appservers 0 and 2, whose addresses are
-- "a" and "c", when they are the first and the third request.
abbrev answer : ℕ → Outcome
answer zero = response "Pong 0"
answer (suc (suc zero)) = response "Pong 2"
answer _ = raised (socket_timeout "timed out")

abbrev counting : World ℕ
counting = record {
  urlopen = λ r w. (answer w, w + 1);
  randint = λ n w. (0, w);
  urlencode = λ fields. "";
}

counting-IsFair : IsFair counting
counting-IsFair = record { randint-le = λ n w. omega arith }

abbrev three : Settings
three = record { hosts = "a" ∷ "b" ∷ "c" ∷ []; ws_hosts = "a" ∷ "b" ∷ "c" ∷ []; ssl = true }

abbrev get : Args
get = record { method = "GET"; params = []; payload = none; headers = []; timeout = 5 }

pingable : iter_pingable_appservers counting three 2 0 ≡ (ok (0 ∷ 2 ∷ []), 3)
unfolding iter_pingable_appservers ping_appserver get_appserver_addr appserver_open_http_request
pingable = refl

-- A world in which the appserver "b" answers at any time, and no other.
abbrev friendly : World ℕ
friendly = record {
  urlopen = λ r w. (
    if r.full_url == "https://b/ping?"
        then response "Pong 1"
        else raised (socket_timeout "timed out"),
    w + 1,
  );
  randint = λ n w. (0, w);
  urlencode = λ fields. "";
}

friendly-IsFair : IsFair friendly
friendly-IsFair = record { randint-le = λ n w. omega arith }

friendly_pings :
    (i : ℕ) (w : ℕ) → i < 3 → (ping_appserver friendly three 2 (index (pos i)) w).0 ≡ ok (eqb i 1)
unfolding ping_appserver get_appserver_addr appserver_open_http_request
friendly_pings zero w h = refl
friendly_pings (suc zero) w h = refl
friendly_pings (suc (suc zero)) w h = refl
friendly_pings (suc (suc (suc i))) w h = absurd (omega arith)

-- An exception that nothing catches.
abbrev strange : World ℕ
strange = record {
  urlopen = λ r w. (raised (uncaught "BadStatusLine"), w);
  randint = λ n w. (0, w);
  urlencode = λ fields. "";
}

uncaught_test :
    (appserver_open_http_request strange three (index (pos 0)) "/" get 1).0
    ≡ err (other_exception "BadStatusLine")
unfolding appserver_open_http_request get_appserver_addr
uncaught_test = refl

open-IsHandled_example :
    (addr : String) × (w' : ℕ) × ((j : ℕ) × (get_elem? ("a" ∷ "b" ∷ "c" ∷ []) j ≡ some addr))
    × IsHandled counting three addr
        (answer w')
        (appserver_open_http_request counting three (index (negsuc 0)) "/sites/3" get 1).0
open-IsHandled_example =
    open-IsHandled counting three counting-IsFair (index (negsuc 0)) "/sites/3" get 1 (omega arith)
      refl
