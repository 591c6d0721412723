-- ===== src/Sites/Consumers.antt =====
-- manager/director/apps/sites/consumers.py: `SiteConsumer`, the websocket on which a page about a site
-- is kept up to date. The steps are what Channels calls, and what the main loop receives; the database
-- is as it is during the step.
pub mod Exposure
pub mod Secrets
pub mod Watching
pub mod Delivery
pub mod Losses
pub mod Replay
mod Tests
use director.Prelude.{
  ℕ, String, Bool, true, false, ◌&&◌, Option, none, some, List, [], ◌∷◌, ◌++◌, map, any, eqb,
  if◌then◌else◌, not,
}
use director.Sites.Models.{
  Site, User, Domain, Database, UrlFormats, Operation, Action, SiteType, static, dynamic, Purpose,
  main_url, is_being_served, db_name, db_url,
}
use director.Sites.Access.{can_be_edited_by, editable_by_user}
use director.Sites.Status.{has_failed, is_failure_user_recoverable}

-- The rows that the consumer reads: an operation comes with its actions in order.
pub record Rows : Type 0 where
  pub sites : List Site
  pub domains : List Domain
  pub operations : List (Operation × List Action)
  pub urls : UrlFormats
  pub usernames : ℕ → String

pub record ActionDump : Type 0 where
  pub slug : String
  pub name : String
  pub started_time : Option ℕ
  pub result : Option Bool

pub record OperationDump : Type 0 where
  pub type : String
  pub started_time : Option ℕ
  pub actions : List ActionDump

pub record DatabaseDump : Type 0 where
  pub username : String
  pub password : String
  pub db_host : String
  pub db_port : ℕ
  pub db_type : String
  pub db_url : String

-- Without the description, the names that choices are displayed with, and when the operation was
-- created.
pub record SiteInfo : Type 0 where
  pub name : String
  pub main_url : String
  pub purpose : Purpose
  pub type : SiteType
  pub users : List String
  pub is_being_served : Bool
  pub database : Option DatabaseDump
  pub operation : Option OperationDump

pub data Message : Type 0 where
  site_info : Option SiteInfo → Message
  site_status : (json : String) → Message
  failed_operation_recoverable : (type : String) → Message

abbrev pub serialize_action_for_user : Action → ActionDump
serialize_action_for_user a = record {
  slug = a.slug;
  name = a.name;
  started_time = a.started_time;
  result = a.result;
}

abbrev pub find_site : ℕ → List Site → Option Site
find_site id [] = none
find_site id (s ∷ sites) = let rest = find_site id sites in if eqb s.id id then some s else rest

-- `site.get_operation()`, with its actions.
abbrev pub find_operation : ℕ → List (Operation × List Action) → Option (Operation × List Action)
find_operation id [] = none
find_operation id ((o, actions) ∷ operations) =
    let rest = find_operation id operations in if eqb o.site id then some (o, actions) else rest

abbrev pub dump_operation : Operation × List Action → OperationDump
dump_operation (o, actions) = record {
  type = o.type;
  started_time = o.started_time;
  actions = map serialize_action_for_user actions;
}

abbrev pub dump_database : ℕ → Database → DatabaseDump
dump_database id d = record {
  username = db_name id;
  password = d.password;
  db_host = d.host.hostname;
  db_port = d.host.port;
  db_type = d.host.dbms;
  db_url = db_url id d;
}

-- The dictionary that `dump_site_info` builds.
unfoldable pub info_of : Rows → Site → SiteInfo
info_of rows s = record {
  name = s.name;
  main_url = main_url rows.urls rows.domains s;
  purpose = s.purpose;
  type = s.type;
  users = map rows.usernames s.users;
  is_being_served = is_being_served s;
  database = elim s.database [ none ↦ none | some d ↦ some (dump_database s.id d) ];
  operation = elim (find_operation s.id rows.operations) [
    | none ↦ none
    | some o ↦ some (dump_operation o)
  ];
}

-- `site` is the object, as it was read last; `status_websocket` is whether there is one that is open.
pub record Session : Type 0 where
  pub site : Option Site
  pub connected : Bool
  pub status_websocket : Bool
  pub in_group : Bool
  pub accepted : Bool
  pub closed : Bool
  pub sent : List Message

abbrev pub same_type : SiteType → SiteType → Bool
same_type static static = true
same_type dynamic dynamic = true
same_type _ _ = false

-- What `dump_site_info` returns: None, False or a dictionary; with the object after it.
pub data Dump : Type 0 where
  gone : Dump
  refused : (site : Site) → Dump
  dumped : (site : Site) (info : SiteInfo) → Dump

unfoldable pub dump_site_info : Rows → User → Option Site → Dump
dump_site_info rows u none = gone
dump_site_info rows u (some old) = elim (find_site old.id rows.sites) [
  | none ↦ gone
  | some s ↦
      if can_be_edited_by s u && same_type s.type old.type
      then dumped s (info_of rows s)
      else refused s
]

abbrev pub close : Session → Session
close s = record s { closed = true }

abbrev pub send_json : Message → Session → Session
send_json m s = record s { sent = s.sent ++ m ∷ [] }

abbrev pub send_dump : Dump → Session → Session
send_dump gone s = send_json (site_info none) s
send_dump (refused site) s = close (record s { site = some site })
send_dump (dumped site info) s = send_json (site_info (some info)) (record s { site = some site })

unfoldable pub send_site_info : Rows → User → Session → Session
send_site_info rows u s = if s.connected then send_dump (dump_site_info rows u s.site) s else s

-- `get_recoverable_failed_operation_type`
unfoldable pub get_recoverable_failed_operation_type : Rows → Site → Option String
get_recoverable_failed_operation_type rows site = elim (find_operation site.id rows.operations) [
  | none ↦ none
  | some (o, actions) ↦
      if has_failed actions && is_failure_user_recoverable actions then some o.type else none
]

abbrev pub send_failed : Rows → Session → Session
send_failed rows s = elim s.site [
  | none ↦ s
  | some site ↦ elim (get_recoverable_failed_operation_type rows site) [
    | none ↦ s
    | some type ↦ send_json (failed_operation_recoverable type) s
  ]
]

-- What happens: `connect`, with the appservers that take a websocket; `site_updated`;
-- `operation_updated`; a message of the status websocket, or its end; `receive_json`; `disconnect`.
pub data Event : Type 0 where
  connects : (site_id : ℕ) (appservers : List Bool) → Event
  site_updated operation_updated status_lost receives disconnects : Event
  status : (json : String) → Event

abbrev pub new_session : Session
new_session = record {
  site = none;
  connected = false;
  status_websocket = false;
  in_group = false;
  accepted = false;
  closed = false;
  sent = [];
}

-- `self.connected = True`, `accept` and `send_site_info`.
abbrev pub welcome : Rows → User → Session → Session
welcome rows u s = send_site_info rows u (record s { connected = true; accepted = true })

-- `connect` for a site that is found.
abbrev pub join : Rows → User → List Bool → Site → Session → Session
join rows u appservers site s =
    let s' = record s { site = some site; in_group = true } in
    elim site.type [
      | static ↦ welcome rows u s'
      | dynamic ↦
          if any (λ answers. answers) appservers
          then welcome rows u (record s' { status_websocket = true })
          else close (record s' { connected = false })
    ]

unfoldable pub connect : Rows → User → ℕ → List Bool → Session → Session
connect rows u site_id appservers s =
    if not u.is_authenticated
    then close s
    else elim (find_site site_id (editable_by_user u rows.sites)) [
      | none ↦ close (record (welcome rows u s) { connected = false })
      | some site ↦ join rows u appservers site s
    ]

abbrev pub after_update : Rows → Session → Session
after_update rows s = if s.connected then send_failed rows s else s

unfoldable pub handle : Rows → User → Event → Session → Session
handle rows u (connects site_id appservers) s = connect rows u site_id appservers s
handle rows u site_updated s = send_site_info rows u s
handle rows u operation_updated s = after_update rows (send_site_info rows u s)
handle rows u (status json) s = if s.status_websocket then send_json (site_status json) s else s
handle rows u status_lost s =
    if s.status_websocket
    then close (record s { connected = false; status_websocket = false })
    else s
handle rows u receives s = s
handle rows u disconnects s = record s {
  site = none;
  connected = false;
  in_group = false;
  status_websocket = false;
}
