-- ===== src/Shell/Invariant.antt =====
-- What holds of every session of shell/shell/server.py.
use director.Prelude.{ap, inr, arith, length}
use director.Shell.Session.{
  Server, Session, new_session, Event, step, Allowed, Reach, session_started, new, next,
  connection_made, closing_started, connection_lost, pty_requested, started, broken, ended, resumed,
  received, connects, flushes, loses_websocket,
}
use director.Shell.Bounds.{Inv, new_session-Inv, start_closing-IsBounded, IsInv-if, close-Inv}
use director.Shell.Typing.{data_received-Inv, break_received-Inv, eof_received-Inv}
use director.Shell.Setup.{resume-Inv, connected-Inv, flushed-Inv, websocket_lost-Inv}

module _ (server : Server) where
  session_started-Inv : (s : Session) → Inv server s → Inv server (session_started s)
  unfolding session_started
  session_started-Inv s h =
      IsInv-if s.pty_opened _ _
        (λ e. record { bounded = h.bounded; task_listed = tt; websock_listed = h.websock_listed })
        (close-Inv s h)

  step-Inv : (s : Session) (e : Event) → Allowed s e → Inv server s → Inv server (step server s e)
  unfolding step new_session
  step-Inv s connection_made a h = record {
    bounded = rw (ap (λ x. length x.buffer) a) (omega arith);
    task_listed = h.task_listed;
    websock_listed = h.websock_listed;
  }
  step-Inv s closing_started a h = record {
    bounded = start_closing-IsBounded s.chan s.buffer h.bounded;
    task_listed = h.task_listed;
    websock_listed = h.websock_listed;
  }
  step-Inv s connection_lost a h = close-Inv s h
  step-Inv s pty_requested a h = record {
    bounded = h.bounded;
    task_listed = h.task_listed;
    websock_listed = h.websock_listed;
  }
  step-Inv s started a h = session_started-Inv s h
  step-Inv s broken a h = break_received-Inv s h
  step-Inv s ended a h = eof_received-Inv s h
  step-Inv s resumed a h = resume-Inv s h
  step-Inv s (received bytes) a h = data_received-Inv bytes s (inr a) h
  step-Inv s (connects success) a h = connected-Inv success s h
  step-Inv s (flushes success) a h = flushed-Inv success s h
  step-Inv s loses_websocket a h = websocket_lost-Inv s h

-- Every session that can be reached holds at most 1000 bytes in its buffer while it has a channel, waits
-- for and is connected to none but the sites that the manager listed for the user.
pub Reach-Inv : (server : Server) {s : Session} → Reach server s → Inv server s
Reach-Inv server new = new_session-Inv server
Reach-Inv server (next {s = s} e r a) = step-Inv server s e a (Reach-Inv server r)
