-- ===== src/Sites/Consumers/Watching.antt =====
-- manager/director/apps/sites/consumers.py: `SiteMonitorConsumer`, which gives what the browser sends to
-- the monitors of all appservers. Its coroutines run from one point where they wait to the next, but
-- `receive` is one step; what the monitors send back and the websockets that fail to open are left out.
use director.Prelude.{
  ℕ, zero, suc, ◌+◌, String, Bool, true, false, none, some, List, [], ◌∷◌, ◌++◌, get_elem?,
  if◌then◌else◌,
}
use director.Prelude.Paths.{is_null}

-- A websocket to a monitor: whether it is open, whether it is in `monitor_websocks`, and what was sent.
pub record Sock : Type 0 where
  pub alive : Bool
  pub listed : Bool
  pub delivered : List String

-- `initialize_monitor_connections`: it waits for the next websocket, for a message of
-- `pending_browser_messages` to be sent to the newest websocket, or has ended.
pub data Task : Type 0 where
  opening finished : Task
  replaying : (next : ℕ) (newest : Sock) → Task

-- `monitor_websocks` is `socks` and the newest one, while that is listed; `received` is what the browser
-- has sent.
pub record Monitor : Type 0 where
  pub socks : List Sock
  pub task : Task
  pub pending : List String
  pub received : List String
  pub connected : Bool
  pub initialized : Bool
  pub closed : Bool

-- When `connect` has accepted.
abbrev pub new_monitor : Monitor
new_monitor = record {
  socks = [];
  task = opening;
  pending = [];
  received = [];
  connected = true;
  initialized = false;
  closed = false;
}

abbrev pub new_sock : Sock
new_sock = record { alive = true; listed = true; delivered = [] }

abbrev pub put : String → Sock → Sock
put m w = record w { delivered = w.delivered ++ m ∷ [] }

-- Sending to each in turn, up to one that is closed, where ConnectionClosed is raised.
abbrev pub deliver : String → List Sock → Bool × List Sock
deliver m [] = (true, [])
deliver m (w ∷ ws) =
    let rest = deliver m ws in if w.alive then (rest.0, put m w ∷ rest.1) else (false, w ∷ ws)

-- Sending to the newest one, which is the last.
abbrev pub deliver_newest : String → Task → Bool × Task
deliver_newest m opening = (true, opening)
deliver_newest m finished = (true, finished)
deliver_newest m (replaying next newest) =
    if newest.listed
    then (if newest.alive
        then (true, replaying next (put m newest))
        else (false, replaying next newest))
    else (true, replaying next newest)

-- `receive`
unfoldable pub receive : String → Monitor → Monitor
receive m s =
    let kept = record s {
      received = s.received ++ m ∷ [];
      pending = if s.initialized then s.pending else s.pending ++ m ∷ [];
    } in
    let (ok, socks) = deliver m s.socks in
    let (ok', task) = deliver_newest m s.task in
    if s.connected
    then (if ok
        then (if ok'
            then record kept { socks = socks; task = task }
            else record kept { socks = socks; closed = true })
        else record kept { socks = socks; closed = true })
    else s

-- A websocket is opened.
abbrev pub open_sock : Monitor → Monitor
open_sock s =
    if is_null s.pending
    then record s { socks = s.socks ++ new_sock ∷ [] }
    else record s { task = replaying 0 new_sock }

-- The newest websocket is like the others.
abbrev pub settle : Sock → Monitor → Monitor
settle w s = record s { socks = if w.listed then s.socks ++ w ∷ [] else s.socks; task = opening }

-- The next of the messages that are pending, as long as there is one.
abbrev pub replay : ℕ → Sock → Monitor → Monitor
replay next w s = elim (get_elem? s.pending next) [
  | none ↦ settle w s
  | some m ↦ if w.alive then record s { task = replaying (next + 1) (put m w) } else settle w s
]

-- No appserver is left to connect to.
abbrev pub initialize : Monitor → Monitor
initialize s =
    if s.connected
    then (if is_null s.socks
        then record s { task = finished; connected = false; closed = true }
        else record s { task = finished; initialized = true; pending = [] })
    else record s { task = finished }

-- A websocket is closed from the other side; the main loop of that websocket notices.
abbrev pub dies : ℕ → List Sock → List Sock
dies n [] = []
dies zero (w ∷ ws) = record w { alive = false } ∷ ws
dies (suc n) (w ∷ ws) = w ∷ dies n ws

abbrev pub removes : ℕ → List Sock → List Sock
removes n [] = []
removes zero (w ∷ ws) = if w.alive then w ∷ ws else ws
removes (suc n) (w ∷ ws) = w ∷ removes n ws

abbrev pub newest_listed : Task → Bool
newest_listed opening = false
newest_listed finished = false
newest_listed (replaying next newest) = newest.listed

-- `if not self.monitor_websocks: await self.close_monitor()`
abbrev pub close_empty : Monitor → Monitor
close_empty s =
    if is_null s.socks then (if newest_listed s.task then s else record s { closed = true }) else s

pub data Event : Type 0 where
  receives : (m : String) → Event
  opens proceeds initializes closes disconnects newest_dies newest_noticed : Event
  sock_dies sock_noticed : (n : ℕ) → Event

abbrev pub on_opens : Task → Monitor → Monitor
on_opens opening s = open_sock s
on_opens finished s = s
on_opens (replaying next newest) s = s

abbrev pub on_proceeds : Task → Monitor → Monitor
on_proceeds opening s = s
on_proceeds finished s = s
on_proceeds (replaying next newest) s = replay next newest s

abbrev pub on_initializes : Task → Monitor → Monitor
on_initializes opening s = initialize s
on_initializes finished s = s
on_initializes (replaying next newest) s = s

abbrev pub on_newest : (Sock → Sock) → Task → Task
on_newest f opening = opening
on_newest f finished = finished
on_newest f (replaying next newest) = replaying next (f newest)

-- `closes` is `sleep_and_close`, a change of the site's users, or an error while a message is passed on.
unfoldable pub handle : Event → Monitor → Monitor
unfolding receive
handle (receives m) s = receive m s
handle opens s = on_opens s.task s
handle proceeds s = on_proceeds s.task s
handle initializes s = on_initializes s.task s
handle closes s = record s { closed = true }
handle disconnects s = record s {
  socks = [];
  task = on_newest (λ w. record w { alive = false; listed = false }) s.task;
  connected = false;
  closed = true;
}
handle (sock_dies n) s = record s { socks = dies n s.socks }
handle (sock_noticed n) s = close_empty (record s { socks = removes n s.socks })
handle newest_dies s = record s { task = on_newest (λ w. record w { alive = false }) s.task }
handle newest_noticed s =
    close_empty (record s {
      task = on_newest (λ w. if w.alive then w else record w { listed = false }) s.task;
    })

abbrev pub handle_all : List Event → Monitor → Monitor
handle_all [] s = s
handle_all (event ∷ events) s = handle_all events (handle event s)
