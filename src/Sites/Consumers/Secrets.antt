-- ===== src/Sites/Consumers/Secrets.antt =====
-- What `SiteConsumer` of manager/director/apps/sites/consumers.py keeps from its user.
use director.Prelude.{
  ℕ, Bool, true, false, not, ◌&&◌, Option, none, some, List, [], ◌∷◌, map, any, eqb, ◌≡◌, refl, ap,
  ◌∙◌, inl, inr, Bool-cases, Option-cases,
}
use director.Sites.Models.{Site, User, Operation, Action, SiteType, static, dynamic}
use director.Sites.Access.{editable_by_user}
use director.Sites.Status.{failed, has_failed, is_failure_user_recoverable}
use director.Sites.Consumers.{
  Rows, serialize_action_for_user, find_site, find_operation, info_of, Session, dump_site_info,
  close, send_site_info, get_recoverable_failed_operation_type, send_failed, Event, connects,
  site_updated, operation_updated, status_lost, receives, disconnects, status, join, connect,
  after_update, handle,
}

-- An action without what may hold the output of errors.
abbrev pub blank : Action → Action
blank a = record a { message = ""; before_state = ""; after_state = "" }

abbrev blank_operation : Operation × List Action → Operation × List Action
blank_operation (o, actions) = (o, map blank actions)

-- The database with these fields of all actions emptied.
abbrev pub redact : Rows → Rows
redact rows = record rows { operations = map blank_operation rows.operations }

any-blank :
    (p : Action → Bool) (actions : List Action)
    → ((a : Action) → p (blank a) ≡ p a)
    → any p (map blank actions) ≡ any p actions
any-blank p [] h = refl
any-blank p (a ∷ actions) h = rw (h a, any-blank p actions h) refl

has_failed-blank : (actions : List Action) → has_failed (map blank actions) ≡ has_failed actions
unfolding has_failed
has_failed-blank actions = any-blank failed actions (λ a. failed-blank a)
  where
    failed-blank : (a : Action) → failed (blank a) ≡ failed a
    failed-blank a = refl

recoverable-blank :
    (actions : List Action)
    → is_failure_user_recoverable (map blank actions) ≡ is_failure_user_recoverable actions
unfolding is_failure_user_recoverable
recoverable-blank actions =
    rw
      (
        has_failed-blank actions,
        any-blank (λ a. failed a && not a.user_recoverable) actions (λ a. refl),
      )
      refl

serialize-blank :
    (actions : List Action)
    → map serialize_action_for_user (map blank actions) ≡ map serialize_action_for_user actions
serialize-blank [] = refl
serialize-blank (a ∷ actions) = ap (λ l. serialize_action_for_user a ∷ l) (serialize-blank actions)

abbrev blank_found : Option (Operation × List Action) → Option (Operation × List Action)
blank_found none = none
blank_found (some o) = some (blank_operation o)

find_operation-blank :
    (id : ℕ) (operations : List (Operation × List Action))
    → find_operation id (map blank_operation operations)
      ≡ blank_found (find_operation id operations)
find_operation-blank id [] = refl
find_operation-blank id ((o, actions) ∷ operations) = elim (Bool-cases (eqb o.site id)) [
  | inl e ↦ rw e refl
  | inr e ↦ rw (e, find_operation-blank id operations) refl
]

module _ (rows : Rows) (u : User) where
  info_of-redact : (s : Site) → info_of (redact rows) s ≡ info_of rows s
  unfolding info_of
  info_of-redact s = elim (Option-cases (find_operation s.id rows.operations)) [
    | inl e ↦ simp (find_operation-blank s.id rows.operations, e)
    | inr ((o, actions), e) ↦
        simp (find_operation-blank s.id rows.operations, e, serialize-blank actions)
  ]

  failed_type-redact :
      (s : Site)
      → get_recoverable_failed_operation_type (redact rows) s
        ≡ get_recoverable_failed_operation_type rows s
  unfolding get_recoverable_failed_operation_type
  failed_type-redact s = elim (Option-cases (find_operation s.id rows.operations)) [
    | inl e ↦
        simp (find_operation-blank s.id rows.operations, e, get_recoverable_failed_operation_type)
    | inr ((o, actions), e) ↦ simp (
      find_operation-blank s.id rows.operations,
      e,
      has_failed-blank actions,
      recoverable-blank actions,
      get_recoverable_failed_operation_type,
    )
  ]

  dump-redact : (o : Option Site) → dump_site_info (redact rows) u o ≡ dump_site_info rows u o
  unfolding dump_site_info
  dump-redact none = refl
  dump-redact (some old) = elim (Option-cases (find_site old.id rows.sites)) [
    | inl e ↦ simp (e, dump_site_info)
    | inr (s, e) ↦ simp (e, dump_site_info, info_of-redact s)
  ]

  send_site_info-redact : (s : Session) → send_site_info (redact rows) u s ≡ send_site_info rows u s
  unfolding send_site_info
  send_site_info-redact s = simp (send_site_info, dump-redact s.site)

  join-redact :
      (appservers : List Bool) (site : Site) (s : Session)
      → join (redact rows) u appservers site s ≡ join rows u appservers site s
  join-redact appservers site s = go site.type refl
    where
      go :
          (t : SiteType)
          → site.type ≡ t
          → join (redact rows) u appservers site s ≡ join rows u appservers site s
      go static e = simp (e, join) (send_site_info-redact _)
      go dynamic e = elim (Bool-cases (any (λ answers. answers) appservers)) [
        | inl f ↦ simp (e, f, join) (send_site_info-redact _)
        | inr f ↦ simp (e, f, join)
      ]

  connect-redact :
      (site_id : ℕ) (appservers : List Bool) (s : Session)
      → connect (redact rows) u site_id appservers s ≡ connect rows u site_id appservers s
  unfolding connect
  connect-redact site_id appservers s = elim (Bool-cases u.is_authenticated) [
    | inr e ↦ simp (e, connect)
    | inl e ↦ elim (Option-cases (find_site site_id (editable_by_user u rows.sites))) [
      | inl f ↦
          simp (e, f, connect)
            (ap (λ x. close (record x { connected = false }))
              (send_site_info-redact (record s { connected = true; accepted = true })))
      | inr (site, f) ↦ simp (e, f, connect) (join-redact appservers site s)
    ]
  ]

  send_failed-redact : (s : Session) → send_failed (redact rows) s ≡ send_failed rows s
  send_failed-redact s = elim (Option-cases s.site) [
    | inl e ↦ simp (e, send_failed)
    | inr (site, e) ↦ simp (e, send_failed, failed_type-redact site)
  ]

  after_update-redact : (s : Session) → after_update (redact rows) s ≡ after_update rows s
  after_update-redact s = elim (Bool-cases s.connected) [
    | inl e ↦ simp (e, after_update) (send_failed-redact s)
    | inr e ↦ simp (e, after_update)
  ]

  -- No step depends on the message, the state before and the state after of any action: with these
  -- fields empty in the whole database, every step does and sends the same.
  pub handle-redact :
      (event : Event) (s : Session) → handle (redact rows) u event s ≡ handle rows u event s
  unfolding handle
  handle-redact (connects site_id appservers) s = connect-redact site_id appservers s
  handle-redact site_updated s = send_site_info-redact s
  handle-redact operation_updated s =
      ap (after_update (redact rows)) (send_site_info-redact s)
      ∙ after_update-redact (send_site_info rows u s)
  handle-redact (status json) s = refl
  handle-redact status_lost s = refl
  handle-redact receives s = refl
  handle-redact disconnects s = refl
