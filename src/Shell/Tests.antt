-- ===== src/Shell/Tests.antt =====
-- Runs of the model of shell/shell/server.py, and the properties at concrete inputs.
use director.Prelude.{
  eq_bytes, Bytes, ℕ, if◌then◌else◌, ◌≡◌, ◌≢◌, refl, true, false, Option, none, some, List, [], ◌∷◌,
  ◌++◌, arith, eqb, ◌⊎◌,
}
use director.Shell.Session.{
  crashed, session_started, start, resume, read_line, select, data_received, keep, close, connected,
  flushed, Server, Session, select_site, proxy, opened, Event, connection_made, connection_lost,
  pty_requested, started, resumed, received, connects, flushes, new_session, step, new, next,
  connecting, selecting, lookup,
}
use director.Shell.Bounds.{Inv}
use director.Shell.Invariant.{Reach-Inv}
use director.Shell.Selection.{typed_name-connects}
use director.Shell.Auth.{
  Auth, validate_password, root, check_named, check_password_sync, session_requested, root_shell,
  shell,
}
use director.Shell.Admission.{validate_password-session_requested, IsNamed}
use director.Shell.Connect.{find_host, find_host-IsFirst, IsFirst}

abbrev blog : Bytes
blog = b'b' ∷ b'l' ∷ b'o' ∷ b'g' ∷ []

abbrev server : Server
server = record { sites = (blog, 7) ∷ []; site_name = none }

-- A session that has come to the question for a name.
abbrev asking : Session
asking = record new_session {
  chan = opened;
  pty_opened = true;
  task = selecting;
  state = select_site;
}

abbrev run_events : Server → List Event → Session → Session
run_events v [] s = s
run_events v (e ∷ es) s = run_events v es (step v s e)

abbrev opening : List Event
opening = connection_made ∷ pty_requested ∷ started ∷ resumed ∷ []

opening_test : run_events server opening new_session ≡ asking
unfolding step session_started start resume new_session
opening_test = refl

-- The site is chosen, and what was typed after the name waits.
chosen_test :
    run_events server (received (blog ++ b'\n' ∷ b'l' ∷ b's' ∷ []) ∷ resumed ∷ []) asking
    ≡ record asking { buffer = b'l' ∷ b's' ∷ []; task = connecting 7 }
unfolding step data_received keep resume read_line select lookup new_session
chosen_test = refl

typed_name-connects_example :
    step server (step server asking (received (blog ++ b'\n' ∷ b'l' ∷ b's' ∷ []))) resumed
    ≡ record asking { buffer = b'l' ∷ b's' ∷ []; signal = false; task = connecting 7 }
unfolding lookup new_session
typed_name-connects_example =
    typed_name-connects server asking (blog ++ b'\n' ∷ b'l' ∷ b's' ∷ []) b'b'
      (b'l' ∷ b'o' ∷ b'g' ∷ []) (b'l' ∷ b's' ∷ []) 7 refl refl refl refl
      (refl, (refl, (refl, (refl, tt)))) (omega arith) refl

Reach-Inv_example :
    Inv server (step server (step server new_session connection_made) (received blog))
unfolding new_session step
Reach-Inv_example = Reach-Inv server (next (received blog) (next connection_made new refl) refl)

-- The manager knows one user.
abbrev manager : Bytes → Bytes → Option (List (Bytes × ℕ))
manager name password = if eq_bytes name blog then some server.sites else none

abbrev visitor : Auth
visitor = record {
  raw_username = some (blog ++ b'/' ∷ b'x' ∷ []);
  username = none;
  site_name = none;
  sites = none;
}

abbrev admitted : Auth
admitted = record visitor {
  username = some blog;
  site_name = some (b'x' ∷ []);
  sites = some server.sites;
}

validate_password-session_requested_example :
    (name : Bytes) × (site : Option Bytes) × IsNamed (blog ++ b'/' ∷ b'x' ∷ []) name site
    × ((name ≡ root) × (session_requested admitted ≡ some root_shell)
        ⊎ ((name ≢ root)
            × ((sites : List (Bytes × ℕ)) × (manager name blog ≡ some sites)
                × (session_requested admitted
                    ≡ some (shell record { sites = sites; site_name = site })))))
unfolding validate_password check_named check_password_sync
validate_password-session_requested_example =
    validate_password-session_requested manager (blog ++ b'/' ∷ b'x' ∷ []) blog visitor admitted
      refl

-- Of three hosts, of which the last answers, beginning with the second.
find_host-IsFirst_example :
    (found : Option ℕ) × (find_host 3 (λ n. eqb n 2) 1 3 1 ≡ some found)
    × IsFirst 3 (λ n. eqb n 2) 1 found
find_host-IsFirst_example = find_host-IsFirst 3 (λ n. eqb n 2) 1 (omega arith)

-- The connection is lost while the websocket is awaited: the session that was closed goes on to proxy mode, with a
-- websocket, and its task fails for want of a channel.
closed_then_proxy_test :
    let s =
      run_events server
        (connection_lost ∷ connects true ∷ flushes true ∷ [])
        (record asking { task = connecting 7 }) in
    (s.state ≡ proxy) × (s.websock ≡ some 7) × (s.task ≡ crashed)
unfolding step close connected flushed new_session
closed_then_proxy_test = (refl, refl, refl)

-- Two lines at once, the first of which is no site: the second is read only when more data come.
second_line_waits_test :
    (run_events server
      (received (b'x' ∷ b'\n' ∷ blog ++ b'\n' ∷ []) ∷ resumed ∷ resumed ∷ [])
      asking).task
    ≡ selecting
unfolding step data_received keep resume read_line select lookup new_session
second_line_waits_test = refl
