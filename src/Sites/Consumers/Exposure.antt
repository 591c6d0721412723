-- ===== src/Sites/Consumers/Exposure.antt =====
-- What `SiteConsumer` of manager/director/apps/sites/consumers.py lets its user see.
use director.Prelude.{
  ℕ, Bool, true, false, Option, none, some, List, [], ◌∷◌, ◌++◌, any, All, All-append, ◌≡◌, refl,
  sym, ap, ◌∙◌, inl, inr, Bool-cases, Option-cases, append-nil, append_assoc,
}
use director.Sites.Models.{Site, User, SiteType, static, dynamic}
use director.Sites.Access.{can_be_edited_by, editable_by_user}
use director.Sites.Consumers.{
  Rows, Message, site_info, site_status, failed_operation_recoverable, find_site, info_of, Session,
  same_type, Dump, gone, refused, dumped, dump_site_info, close, send_json, send_dump,
  send_site_info, get_recoverable_failed_operation_type, send_failed, Event, connects, site_updated,
  operation_updated, status_lost, receives, disconnects, status, join, connect, after_update,
  handle,
}

-- What is told of a site is what the row has, and the user may edit the site.
abbrev pub IsAuthorized : Rows → User → Message → Type 0
IsAuthorized rows u (site_info none) = Unit
IsAuthorized rows u (site_info (some info)) =
    (id : ℕ) × (site : Site) × (find_site id rows.sites ≡ some site)
    × (can_be_edited_by site u ≡ true)
    × (info ≡ info_of rows site)
IsAuthorized rows u (site_status json) = Unit
IsAuthorized rows u (failed_operation_recoverable type) = Unit

module _ (rows : Rows) (u : User) where
  -- All that a step sends is authorized.
  abbrev pub IsCareful : Session → Session → Type 0
  IsCareful s s' =
      (messages : List Message) × (s'.sent ≡ s.sent ++ messages)
      × All (IsAuthorized rows u) messages

  silent : (s s' : Session) → s'.sent ≡ s.sent → IsCareful s s'
  silent s s' e = ([], e ∙ sym (append-nil s.sent), tt)

  sends : (s : Session) (m : Message) → IsAuthorized rows u m → IsCareful s (send_json m s)
  sends s m h = (m ∷ [], refl, (h, tt))

  both : (s s' s'' : Session) → IsCareful s s' → IsCareful s' s'' → IsCareful s s''
  both s s' s'' (ms, e, h) (ns, f, k) = (
    ms ++ ns,
    f ∙ ap (λ l. l ++ ns) e ∙ append_assoc s.sent ms ns,
    All-append (IsAuthorized rows u) ms ns h k,
  )

  -- A dump that may be sent.
  abbrev IsShowable : Dump → Type 0
  IsShowable gone = Unit
  IsShowable (refused site) = Unit
  IsShowable (dumped site info) = IsAuthorized rows u (site_info (some info))

  dump-IsShowable : (o : Option Site) → IsShowable (dump_site_info rows u o)
  unfolding dump_site_info
  dump-IsShowable none = tt
  dump-IsShowable (some old) = elim (Option-cases (find_site old.id rows.sites)) [
    | inl e ↦ rw (e, dump_site_info) tt
    | inr (s, e) ↦ elim (Bool-cases (can_be_edited_by s u)) [
      | inr f ↦ rw (e, f, dump_site_info) tt
      | inl f ↦ elim (Bool-cases (same_type s.type old.type)) [
        | inr g ↦ rw (e, f, g, dump_site_info) tt
        | inl g ↦ simp (e, f, g, dump_site_info) (old.id, s, e, f, refl)
      ]
    ]
  ]

  send_dump-IsCareful : (d : Dump) (s : Session) → IsShowable d → IsCareful s (send_dump d s)
  send_dump-IsCareful gone s h = sends s (site_info none) tt
  send_dump-IsCareful (refused site) s h = silent s (send_dump (refused site) s) refl
  send_dump-IsCareful (dumped site info) s h =
      sends (record s { site = some site }) (site_info (some info)) h

  send_site_info-IsCareful : (s : Session) → IsCareful s (send_site_info rows u s)
  unfolding send_site_info
  send_site_info-IsCareful s = elim (Bool-cases s.connected) [
    | inl e ↦
        simp (e, send_site_info)
          (send_dump-IsCareful (dump_site_info rows u s.site) s (dump-IsShowable s.site))
    | inr e ↦ simp (e, send_site_info) (silent s s refl)
  ]

  send_failed-IsCareful : (s : Session) → IsCareful s (send_failed rows s)
  send_failed-IsCareful s = elim (Option-cases s.site) [
    | inl e ↦ simp (e, send_failed) (silent s s refl)
    | inr (site, e) ↦ elim (Option-cases (get_recoverable_failed_operation_type rows site)) [
      | inl f ↦ simp (e, f, send_failed) (silent s s refl)
      | inr (type, f) ↦ simp (e, f, send_failed) (sends s (failed_operation_recoverable type) tt)
    ]
  ]

  join-IsCareful :
      (appservers : List Bool) (site : Site) (s : Session)
      → IsCareful s (join rows u appservers site s)
  join-IsCareful appservers site s = go site.type refl
    where
      go : (t : SiteType) → site.type ≡ t → IsCareful s (join rows u appservers site s)
      go static e = simp (e, join) (send_site_info-IsCareful _)
      go dynamic e = elim (Bool-cases (any (λ answers. answers) appservers)) [
        | inl f ↦ simp (e, f, join) (send_site_info-IsCareful _)
        | inr f ↦
            simp (e, f, join)
              (silent s (close (record s { site = some site; in_group = true; connected = false }))
                refl)
      ]

  connect-IsCareful :
      (site_id : ℕ) (appservers : List Bool) (s : Session)
      → IsCareful s (connect rows u site_id appservers s)
  unfolding connect
  connect-IsCareful site_id appservers s = elim (Bool-cases u.is_authenticated) [
    | inr e ↦ simp (e, connect) (silent s (close s) refl)
    | inl e ↦ elim (Option-cases (find_site site_id (editable_by_user u rows.sites))) [
      | inl f ↦
          simp (e, f, connect)
            (send_site_info-IsCareful (record s { connected = true; accepted = true }))
      | inr (site, f) ↦ simp (e, f, connect) (join-IsCareful appservers site s)
    ]
  ]

  after_update-IsCareful : (s : Session) → IsCareful s (after_update rows s)
  after_update-IsCareful s = elim (Bool-cases s.connected) [
    | inl e ↦ simp (e, after_update) (send_failed-IsCareful s)
    | inr e ↦ simp (e, after_update) (silent s s refl)
  ]

  -- In any state, whatever happens: if the step sends what a site is like, its database password
  -- included, then the user may edit that site as the row has it in this step, and what is sent is what
  -- the row has; nothing that was sent before is changed.
  pub handle-IsCareful : (event : Event) (s : Session) → IsCareful s (handle rows u event s)
  unfolding handle
  handle-IsCareful (connects site_id appservers) s = connect-IsCareful site_id appservers s
  handle-IsCareful site_updated s = send_site_info-IsCareful s
  handle-IsCareful operation_updated s =
      both s (send_site_info rows u s) (after_update rows (send_site_info rows u s))
        (send_site_info-IsCareful s) (after_update-IsCareful (send_site_info rows u s))
  handle-IsCareful (status json) s = elim (Bool-cases s.status_websocket) [
    | inl e ↦ simp (e, handle) (sends s (site_status json) tt)
    | inr e ↦ simp (e, handle) (silent s s refl)
  ]
  handle-IsCareful status_lost s = elim (Bool-cases s.status_websocket) [
    | inl e ↦
        simp (e, handle)
          (silent s (close (record s { connected = false; status_websocket = false })) refl)
    | inr e ↦ simp (e, handle) (silent s s refl)
  ]
  handle-IsCareful receives s = silent s s refl
  handle-IsCareful disconnects s = silent s (handle rows u disconnects s) refl
