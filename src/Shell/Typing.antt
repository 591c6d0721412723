-- ===== src/Shell/Typing.antt =====
-- The data, breaks and ends of input of shell/shell/server.py keep the invariant.
use director.Prelude.{
  Bytes, ◌≡◌, refl, Bool, true, false, none, some, [], ◌∷◌, ◌++◌, ltb, inl, inr, ◌⊎◌, arith, length,
  if◌then◌else◌,
}
use director.Shell.Session.{
  State, begin, select_site, proxy, closed, gone, opened, Server, Session, receive, data_received,
  break_received, eof_received, is_proxy, keep, forward, close,
}
use director.Shell.Bounds.{Inv, IsInv-if, close-Inv}

is_proxy-true : (st : State) → is_proxy st ≡ true → st ≡ proxy
is_proxy-true begin e = ground arith
is_proxy-true select_site e = ground arith
is_proxy-true proxy e = refl
is_proxy-true closed e = ground arith

module _ {server : Server} where
  keep_or_close-Inv :
      (b : Bool) (bytes : Bytes) (s : Session)
      → s.chan ≡ opened
      → ltb 1000 (length bytes) ≡ b
      → Inv server s
      → let s' = record s { buffer = bytes } in
        Inv server (record (if b then close s' else s') { signal = true })
  unfolding close
  keep_or_close-Inv true bytes s o long h = record {
    bounded = rw o tt;
    task_listed = h.task_listed;
    websock_listed = tt;
  }
  keep_or_close-Inv false bytes s o short h = record {
    bounded = rw o (ground arith);
    task_listed = h.task_listed;
    websock_listed = h.websock_listed;
  }

  keep-Inv :
      (bytes : Bytes) (s : Session) → s.chan ≡ opened → Inv server s → Inv server (keep bytes s)
  unfolding keep
  keep-Inv bytes s o h =
      keep_or_close-Inv (ltb 1000 (length (s.buffer ++ bytes))) (s.buffer ++ bytes) s o refl h

  forward-Inv : (bytes : Bytes) (s : Session) → Inv server s → Inv server (forward bytes s)
  unfolding forward
  forward-Inv bytes s h =
      elim s.websock
        as (λ w.
          Inv server (elim w [ none ↦ s | some id ↦ record s { sent = s.sent ++ bytes ∷ [] } ])) [
            | none ↦ h
            | some id ↦ record {
              bounded = h.bounded;
              task_listed = h.task_listed;
              websock_listed = h.websock_listed;
            }
          ]

  receive-Inv :
      (st : State) (bytes : Bytes) (s : Session)
      → (st ≡ proxy) ⊎ (s.chan ≡ opened)
      → Inv server s
      → Inv server (receive st bytes s)
  receive-Inv begin bytes s (inl e) h = ground arith
  receive-Inv begin bytes s (inr o) h = keep-Inv bytes s o h
  receive-Inv select_site bytes s (inl e) h = ground arith
  receive-Inv select_site bytes s (inr o) h = keep-Inv bytes s o h
  receive-Inv proxy bytes s c h = forward-Inv bytes s h
  receive-Inv closed bytes s c h = h

  -- In proxy mode data may come from a channel that is closing, since breaks are sent as data.
  pub data_received-Inv :
      (bytes : Bytes) (s : Session)
      → (s.state ≡ proxy) ⊎ (s.chan ≡ opened)
      → Inv server s
      → Inv server (data_received bytes s)
  unfolding data_received
  data_received-Inv bytes s c h =
      elim s.chan as (λ c'. Inv server (elim c' [ gone ↦ s | _ ↦ receive s.state bytes s ])) [
        | gone ↦ h
        | _ ↦ receive-Inv s.state bytes s c h
      ]

  pub break_received-Inv : (s : Session) → Inv server s → Inv server (break_received s)
  unfolding break_received
  break_received-Inv s h =
      IsInv-if (is_proxy s.state) _ _
        (λ e. data_received-Inv (3 ∷ []) s (inl (is_proxy-true s.state e)) h) (close-Inv s h)

  pub eof_received-Inv : (s : Session) → Inv server s → Inv server (eof_received s)
  unfolding eof_received
  eof_received-Inv s h =
      IsInv-if (is_proxy s.state) _ _
        (λ e. data_received-Inv (4 ∷ []) s (inl (is_proxy-true s.state e)) h) (close-Inv s h)
