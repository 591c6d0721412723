-- ===== src/Shell/Setup.antt =====
-- The coroutine `setup_connection` of shell/shell/server.py keeps the invariant.
use director.Prelude.{
  Bytes, split_first, ℕ, ◌≡◌, refl, Bool, true, false, Option, none, some, [], ◌∷◌, ◌++◌, arith,
  if◌then◌else◌,
}
use director.Shell.Session.{
  select_site, proxy, gone, opened, closing, Task, connecting, flushing, scheduled, selecting,
  proxying, finished, crashed, resume, Server, Session, lookup, start, select, read_line, resume,
  connected, flushed, choose, websocket_lost, after_flush, close, close_channel, give_up,
}
use director.Shell.Bounds.{
  IsListed, IsListedTask, Inv, close_channel-IsBounded, shorter-IsBounded, split_first-length,
  after_flush-IsListed, ended-IsListed, give_up-Inv,
}

module _ {server : Server} where
  IsListed-choose :
      (found : Option ℕ) (s otherwise : Session)
      → ((id : ℕ) → found ≡ some id → IsListed server id)
      → Inv server s
      → Inv server otherwise
      → Inv server (choose found s otherwise)
  IsListed-choose none s otherwise l h h' = h'
  IsListed-choose (some id) s otherwise l h h' = record {
    bounded = h.bounded;
    task_listed = l id refl;
    websock_listed = h.websock_listed;
  }

  selecting-Inv :
      (s : Session) → Inv server s → Inv server (record s { state = select_site; task = selecting })
  selecting-Inv s h = record {
    bounded = h.bounded;
    task_listed = tt;
    websock_listed = h.websock_listed;
  }

  named-Inv :
      (name : Option Bytes) (s : Session)
      → Inv server s
      → let s' = record s { state = select_site; task = selecting } in
        Inv server (elim name [
          | none ↦ s'
          | some n ↦ elim n [
            | [] ↦ s'
            | c ∷ cs ↦ choose (lookup (c ∷ cs) server.sites) s (give_up s)
          ]
        ])
  named-Inv none s h = selecting-Inv s h
  named-Inv (some []) s h = selecting-Inv s h
  named-Inv (some (c ∷ cs)) s h =
      IsListed-choose (lookup (c ∷ cs) server.sites) s (give_up s) (λ id e. (c ∷ cs, e)) h
        (give_up-Inv s h)

  start-Inv : (s : Session) → Inv server s → Inv server (start server s)
  unfolding start
  start-Inv s h =
      let named : Session = elim server.site_name [
        | none ↦ record s { state = select_site; task = selecting }
        | some name ↦ elim name [
          | [] ↦ record s { state = select_site; task = selecting }
          | c ∷ cs ↦ choose (lookup (c ∷ cs) server.sites) s (give_up s)
        ]
      ] in
      let listed : Session = elim server.sites [ [] ↦ give_up s | _ ∷ _ ↦ named ] in
      let listed-Inv : Inv server listed =
        elim server.sites as (λ sites. Inv server (elim sites [ [] ↦ give_up s | _ ∷ _ ↦ named ])) [
          | [] ↦ give_up-Inv s h
          | _ ∷ _ ↦ named-Inv server.site_name s h
        ] in
      elim s.chan
        as (λ c. Inv server (elim c [ gone ↦ record s { task = crashed } | _ ↦ listed ])) [
          | gone ↦ record {
            bounded = h.bounded;
            task_listed = tt;
            websock_listed = h.websock_listed;
          }
          | opened ↦ listed-Inv
          | closing ↦ listed-Inv
        ]

  select-Inv : (line : Bytes) (s : Session) → Inv server s → Inv server (select server line s)
  unfolding select
  select-Inv [] s h =
      elim (lookup [] server.sites)
        as (λ f. Inv server (elim f [ none ↦ s | some id ↦ give_up s ])) [
          | none ↦ h
          | some id ↦ give_up-Inv s h
        ]
  select-Inv (c ∷ cs) s h =
      IsListed-choose (lookup (c ∷ cs) server.sites) s s (λ id e. (c ∷ cs, e)) h h

  line_read-Inv :
      (found : Option (Bytes × Bytes)) (s : Session)
      → split_first b'\n' s.buffer ≡ found
      → Inv server s
      → Inv server (elim found [
        | none ↦ record s { signal = false }
        | some (line, rest) ↦ select server line (record s { signal = false; buffer = rest })
      ])
  line_read-Inv none s e h = record {
    bounded = h.bounded;
    task_listed = h.task_listed;
    websock_listed = h.websock_listed;
  }
  line_read-Inv (some (line, rest)) s e h =
      select-Inv line (record s { signal = false; buffer = rest })
        record {
          bounded =
              shorter-IsBounded s.chan s.buffer rest (split_first-length b'\n' s.buffer line rest e)
                h.bounded;
          task_listed = h.task_listed;
          websock_listed = h.websock_listed;
        }

  read_line-Inv : (s : Session) → Inv server s → Inv server (read_line server s)
  unfolding read_line
  read_line-Inv s h =
      let round : Session = elim (split_first b'\n' s.buffer) [
        | none ↦ record s { signal = false }
        | some (line, rest) ↦ select server line (record s { signal = false; buffer = rest })
      ] in
      let round-Inv : Inv server round = line_read-Inv (split_first b'\n' s.buffer) s refl h in
      elim s.signal
        as (λ b. Inv server (if b then elim s.chan [ gone ↦ give_up s | _ ↦ round ] else s)) [
          | true ↦ elim s.chan as (λ c. Inv server (elim c [ gone ↦ give_up s | _ ↦ round ])) [
            | gone ↦ give_up-Inv s h
            | opened ↦ round-Inv
            | closing ↦ round-Inv
          ]
          | false ↦ h
        ]

  pub resume-Inv : (s : Session) → Inv server s → Inv server (resume server s)
  unfolding resume
  resume-Inv s h =
      elim s.task
        as (λ t.
          Inv server
            (elim t [ scheduled ↦ start server s | selecting ↦ read_line server s | _ ↦ s ])) [
              | scheduled ↦ start-Inv s h
              | selecting ↦ read_line-Inv s h
              | _ ↦ h
            ]

  task_connected-Inv :
      (t : Task) (success : Bool) (s : Session)
      → Inv server s
      → IsListedTask server t
      → Inv server (elim t [
        | connecting id ↦
            (if success
              then record s {
                task = flushing id s.buffer;
                buffer = [];
                sent = s.sent ++ s.buffer ∷ [];
              }
              else give_up s)
        | _ ↦ s
      ])
  task_connected-Inv (connecting id) true s h l = record {
    bounded = shorter-IsBounded s.chan s.buffer [] (omega arith) h.bounded;
    task_listed = l;
    websock_listed = h.websock_listed;
  }
  task_connected-Inv (connecting id) false s h l = give_up-Inv s h
  task_connected-Inv _ success s h l = h

  task_flushed-Inv :
      (t : Task) (success : Bool) (s : Session)
      → Inv server s
      → IsListedTask server t
      → Inv server (elim t [
        | flushing id buf ↦
            (let s' = record s { websock = some id; state = proxy } in
              if success
              then record s' { sent = s.sent ++ buf ∷ []; task = after_flush s.chan }
              else let s'' = close s' in
                record s'' { task = elim s''.chan [ gone ↦ crashed | _ ↦ finished ] })
        | _ ↦ s
      ])
  unfolding close
  task_flushed-Inv (flushing id buf) true s h l = record {
    bounded = h.bounded;
    task_listed = after_flush-IsListed server s.chan;
    websock_listed = l;
  }
  task_flushed-Inv (flushing id buf) false s h l = record {
    bounded = close_channel-IsBounded s.chan s.buffer h.bounded;
    task_listed = ended-IsListed server (close_channel s.chan);
    websock_listed = tt;
  }
  task_flushed-Inv _ success s h l = h

  pub connected-Inv :
      (success : Bool) (s : Session) → Inv server s → Inv server (connected success s)
  unfolding connected
  connected-Inv success s h = task_connected-Inv s.task success s h h.task_listed

  pub flushed-Inv : (success : Bool) (s : Session) → Inv server s → Inv server (flushed success s)
  unfolding flushed close
  flushed-Inv success s h = task_flushed-Inv s.task success s h h.task_listed

  pub websocket_lost-Inv : (s : Session) → Inv server s → Inv server (websocket_lost s)
  unfolding websocket_lost
  websocket_lost-Inv s h =
      elim s.task as (λ t. Inv server (elim t [ proxying ↦ give_up s | _ ↦ s ])) [
        | proxying ↦ give_up-Inv s h
        | _ ↦ h
      ]
