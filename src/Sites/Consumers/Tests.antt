-- ===== src/Sites/Consumers/Tests.antt =====
-- Runs of `SiteConsumer` of manager/director/apps/sites/consumers.py.
use director.Prelude.{String, true, false, none, some, List, [], ◌∷◌, ◌≡◌, refl, map}
use director.Sites.Models.{Action}
use director.Sites.Access.{can_be_edited_by, editable_by_user}
use director.Sites.Status.{has_failed, is_failure_user_recoverable}
use director.Sites.Samples.{blog, student, url_formats}
use director.Sites.Consumers.{
  Rows, site_info, failed_operation_recoverable, info_of, Session, new_session, connects,
  site_updated, operation_updated, handle, connect, send_site_info, dump_site_info,
  get_recoverable_failed_operation_type,
}
use director.Sites.Consumers.Exposure.{IsCareful, handle-IsCareful}
use director.Sites.Consumers.Watching
use director.Sites.Consumers.Watching.{
  Monitor, new_monitor, new_sock, receives, opens, proceeds, initializes, disconnects, handle_all,
}
use director.Sites.Consumers.Delivery.{IsSound}
use director.Sites.Consumers.Replay.{handle_all-IsSound}
use director.Sites.Consumers.Secrets.{redact, handle-redact}

abbrev crashed : Action
crashed = record {
  slug = "update";
  name = "Updating";
  started_time = some 1;
  before_state = "";
  after_state = "";
  result = some false;
  message = "Traceback";
  user_recoverable = true;
}

abbrev rows : Rows
rows = record {
  sites = blog ∷ [];
  domains = [];
  operations = (record { site = 3; type = "edit_site"; started_time = some 1 }, crashed ∷ []) ∷ [];
  urls = url_formats;
  usernames = λ id. "2024student";
}

-- The site without its users.
abbrev taken : Rows
taken = record rows { sites = record blog { users = [] } ∷ [] }

abbrev opened : Session
opened = handle rows student (connects 3 []) new_session

connect_test :
    (opened.sent ≡ site_info (some (info_of rows blog)) ∷ [])
    × (opened.accepted ≡ true)
    × ((handle rows student (connects 4 []) new_session).sent ≡ site_info none ∷ [])
    × ((handle taken student site_updated opened).closed ≡ true)
    × ((handle taken student site_updated opened).sent ≡ opened.sent)
unfolding handle connect send_site_info dump_site_info editable_by_user can_be_edited_by
connect_test = (refl, refl, refl, refl, refl)

-- A user who may no longer edit the site, and whose connection is closed for it, is still told of the
-- failed operation.
failed_operation_test :
    (handle taken student operation_updated opened).sent
    ≡ site_info (some (info_of rows blog)) ∷ failed_operation_recoverable "edit_site" ∷ []
unfolding handle connect send_site_info dump_site_info editable_by_user can_be_edited_by
    get_recoverable_failed_operation_type has_failed is_failure_user_recoverable
failed_operation_test = refl

handle-IsCareful_example :
    IsCareful rows student opened (handle rows student operation_updated opened)
handle-IsCareful_example = handle-IsCareful rows student operation_updated opened

handle-redact_example :
    handle (redact rows) student operation_updated opened
    ≡ handle rows student operation_updated opened
handle-redact_example = handle-redact rows student operation_updated opened

abbrev sent_to : Monitor → List (List String)
sent_to s = map (λ w. w.delivered) s.socks

-- What the browser sends while older messages are being sent to a new websocket comes there twice, and
-- may come before them.
twice_test :
    (sent_to (
        handle_all
          (receives "+a" ∷ opens ∷ receives "-a" ∷ proceeds ∷ proceeds ∷ proceeds ∷ [])
          new_monitor)
      ≡ ("-a" ∷ "+a" ∷ "-a" ∷ []) ∷ [])
    × (sent_to (
          handle_all (opens ∷ opens ∷ receives "+a" ∷ initializes ∷ receives "-a" ∷ []) new_monitor)
        ≡ ("+a" ∷ "-a" ∷ []) ∷ ("+a" ∷ "-a" ∷ []) ∷ [])
unfolding Watching.handle
twice_test = (refl, refl)

-- A websocket that is opened after the browser has gone stays open.
leak_test : (handle_all (disconnects ∷ opens ∷ initializes ∷ []) new_monitor).socks ≡ new_sock ∷ []
unfolding Watching.handle
leak_test = refl

handle_all-IsSound_example :
    IsSound (handle_all (receives "+a" ∷ opens ∷ proceeds ∷ receives "-a" ∷ []) new_monitor)
handle_all-IsSound_example =
    handle_all-IsSound (receives "+a" ∷ opens ∷ proceeds ∷ receives "-a" ∷ [])
