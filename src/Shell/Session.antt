-- ===== src/Shell/Session.antt =====
-- shell/shell/server.py: `ShellSSHServerSession`. The coroutine `setup_connection` runs between two
-- points where it waits in one step; `Task` is where it waits. What it writes to the terminal and its
-- size are left out.
use director.Prelude.{
  Bytes, split_first, ℕ, ◌≡◌, Bool, true, false, Option, none, some, List, [], ◌∷◌, ◌++◌, ltb,
  length, if◌then◌else◌, eq_bytes,
}

pub data State : Type 0 where
  begin select_site proxy closed : State

-- `self.chan`: None, a channel that is open, or one for which `is_closing()` holds.
pub data Channel : Type 0 where
  gone opened closing : Channel

-- Where `setup_connection` waits: not started; in the queue of the event loop; for the name of a site;
-- for the websocket of a site, and for its answer; for the first flush of the buffer, which it holds;
-- in the main loop; it has returned; it was ended by an exception.
pub data Task : Type 0 where
  unscheduled scheduled selecting proxying finished crashed : Task
  connecting : (site_id : ℕ) → Task
  flushing : (site_id : ℕ) (buf : Bytes) → Task

-- `server.sites` without the tokens, and `server.site_name`. A name is the list of its characters.
pub record Server : Type 0 where
  pub sites : List (Bytes × ℕ)
  pub site_name : Option Bytes

-- `signal` is whether `buffer_update_event` is set; `websock` is the site that the websocket leads to;
-- `sent` is what was given to the websocket.
pub record Session : Type 0 where
  pub state : State
  pub buffer : Bytes
  pub signal : Bool
  pub chan : Channel
  pub websock : Option ℕ
  pub pty_opened : Bool
  pub task : Task
  pub sent : List Bytes

unfoldable pub new_session : Session
new_session = record {
  state = begin;
  buffer = [];
  signal = false;
  chan = gone;
  websock = none;
  pty_opened = false;
  task = unscheduled;
  sent = [];
}

abbrev pub close_channel : Channel → Channel
close_channel opened = gone
close_channel gone = gone
close_channel closing = closing

unfoldable pub close : Session → Session
close s = record s { state = closed; chan = close_channel s.chan; websock = none; signal = true }

-- `self.buffer += data`, with the bound.
unfoldable pub keep : Bytes → Session → Session
unfolding close
keep bytes s =
    let s' = record s { buffer = s.buffer ++ bytes } in
    record (if ltb 1000 (length (s.buffer ++ bytes)) then close s' else s') { signal = true }

unfoldable pub forward : Bytes → Session → Session
forward bytes s = elim s.websock [ none ↦ s | some id ↦ record s { sent = s.sent ++ bytes ∷ [] } ]

-- What a state does with data.
abbrev pub receive : State → Bytes → Session → Session
receive begin bytes s = keep bytes s
receive select_site bytes s = keep bytes s
receive proxy bytes s = forward bytes s
receive closed bytes s = s

unfoldable pub data_received : Bytes → Session → Session
unfolding keep forward
data_received bytes s = elim s.chan [ gone ↦ s | _ ↦ receive s.state bytes s ]

abbrev pub is_proxy : State → Bool
is_proxy proxy = true
is_proxy _ = false

unfoldable pub break_received : Session → Session
unfolding data_received close
break_received s = if is_proxy s.state then data_received (3 ∷ []) s else close s

unfoldable pub eof_received : Session → Session
unfolding data_received close
eof_received s = if is_proxy s.state then data_received (4 ∷ []) s else close s

unfoldable pub session_started : Session → Session
unfolding close
session_started s = if s.pty_opened then record s { task = scheduled } else close s

-- `self.server.sites[name]`
unfoldable pub lookup : Bytes → List (Bytes × ℕ) → Option ℕ
lookup name [] = none
lookup name ((n, id) ∷ sites) = if eq_bytes n name then some id else lookup name sites

abbrev pub give_up : Session → Session
give_up s = record (close s) { task = finished }

-- The end of `get_site_name`, with a name that is a key of the sites, if there is one.
abbrev pub choose : Option ℕ → Session → Session → Session
choose none s otherwise = otherwise
choose (some id) s otherwise = record s { task = connecting id }

-- `get_site_name` up to where it waits for the first time.
unfoldable pub start : Server → Session → Session
unfolding close lookup
start server s = elim s.chan [
  | gone ↦ record s { task = crashed }
  | _ ↦ elim server.sites [
    | [] ↦ give_up s
    | _ ∷ _ ↦ elim server.site_name [
      | none ↦ record s { state = select_site; task = selecting }
      | some name ↦ elim name [
        | [] ↦ record s { state = select_site; task = selecting }
        | c ∷ cs ↦ choose (lookup (c ∷ cs) server.sites) s (give_up s)
      ]
    ]
  ]
]

-- A line that was typed. The empty name, where it is a key, ends the session.
unfoldable pub select : Server → Bytes → Session → Session
unfolding close lookup
select server line s = elim line [
  | [] ↦ elim (lookup [] server.sites) [ none ↦ s | some id ↦ give_up s ]
  | c ∷ cs ↦ choose (lookup (c ∷ cs) server.sites) s s
]

-- One round of the loop of `get_site_name`.
unfoldable pub read_line : Server → Session → Session
unfolding close select
read_line server s =
    if s.signal
    then elim s.chan [
      | gone ↦ give_up s
      | _ ↦ elim (split_first b'\n' s.buffer) [
        | none ↦ record s { signal = false }
        | some (line, rest) ↦ select server line (record s { signal = false; buffer = rest })
      ]
    ]
    else s

-- The task goes on by itself.
unfoldable pub resume : Server → Session → Session
unfolding start read_line
resume server s = elim s.task [
  | scheduled ↦ start server s
  | selecting ↦ read_line server s
  | _ ↦ s
]

-- `connect_websock` up to the first flush: a websocket that answers that it is connected, or none.
unfoldable pub connected : Bool → Session → Session
unfolding close
connected success s = elim s.task [
  | connecting id ↦
      (if success
        then record s { task = flushing id s.buffer; buffer = []; sent = s.sent ++ s.buffer ∷ [] }
        else give_up s)
  | _ ↦ s
]

abbrev pub after_flush : Channel → Task
after_flush gone = crashed
after_flush _ = proxying

-- The rest of `connect_websock`, and `setup_connection` up to the main loop. Where the second flush
-- fails, `self.close()` runs and `write_stderr_bytes` asserts that there is a channel.
unfoldable pub flushed : Bool → Session → Session
unfolding close
flushed success s = elim s.task [
  | flushing id buf ↦
      (let s' = record s { websock = some id; state = proxy } in
        if success
        then record s' { sent = s.sent ++ buf ∷ []; task = after_flush s.chan }
        else let s'' = close s' in
          record s'' { task = elim s''.chan [ gone ↦ crashed | _ ↦ finished ] })
  | _ ↦ s
]

-- The websocket is lost while the main loop runs.
unfoldable pub websocket_lost : Session → Session
unfolding close
websocket_lost s = elim s.task [ proxying ↦ give_up s | _ ↦ s ]

pub data Event : Type 0 where
  connection_made closing_started connection_lost pty_requested started broken ended resumed : Event
  received : Bytes → Event
  connects flushes : Bool → Event
  loses_websocket : Event

abbrev pub start_closing : Channel → Channel
start_closing opened = closing
start_closing c = c

unfoldable pub step : Server → Session → Event → Session
unfolding close data_received break_received eof_received session_started resume connected flushed
    websocket_lost
step server s connection_made = record s { chan = opened }
step server s closing_started = record s { chan = start_closing s.chan }
step server s connection_lost = close s
step server s pty_requested = record s { pty_opened = true }
step server s started = session_started s
step server s broken = break_received s
step server s ended = eof_received s
step server s resumed = resume server s
step server s (received bytes) = data_received bytes s
step server s (connects success) = connected success s
step server s (flushes success) = flushed success s
step server s loses_websocket = websocket_lost s

-- What asyncssh does: a channel is given once, at the start, its session starts once, and no data come
-- from a channel that is closing.
abbrev pub Allowed : Session → Event → Type 0
Allowed s connection_made = s ≡ new_session
Allowed s (received bytes) = s.chan ≡ opened
Allowed s started = s.task ≡ unscheduled
Allowed s e = Unit

-- The sessions that a new one can become.
pub data Reach (server : Server) : Session → Type 0 where
  new : Reach server new_session
  next : {s : Session} (e : Event) → Reach server s → Allowed s e → Reach server (step server s e)
