-- ===== src/Shell/Selection.antt =====
-- What a user sees of shell/shell/server.py: the choice of a site, and the start of proxy mode.
use director.Prelude.{
  Bytes, split_first, split_first-append, IsFree, ℕ, ◌∙◌, ◌≤◌, ◌≡◌, refl, true, false, some, [],
  ◌∷◌, ◌++◌, ltb, arith, length, append_assoc,
}
use director.Shell.Session.{
  select_site, opened, connecting, flushing, selecting, proxying, Server, Session, lookup, keep,
  data_received, select, read_line, resume, connected, flushed, step, received, resumed, connects,
  flushes,
}

keep-short :
    (bytes : Bytes) (s : Session)
    → length (s.buffer ++ bytes) ≤ 1000
    → keep bytes s ≡ record s { buffer = s.buffer ++ bytes; signal = true }
unfolding keep
keep-short bytes s short =
    let e : ltb 1000 (length (s.buffer ++ bytes)) ≡ false = ground arith in rw e refl

data_received-waiting :
    (bytes : Bytes) (s : Session)
    → s.chan ≡ opened
    → s.state ≡ select_site
    → data_received bytes s ≡ keep bytes s
unfolding data_received
data_received-waiting bytes s o w = simp (data_received, o, w)

-- A round of the loop of `get_site_name` that finds the name of a site.
read_line-listed :
    (server : Server) (s : Session) (c : ℕ) (cs rest : Bytes) (id : ℕ)
    → s.signal ≡ true
    → s.chan ≡ opened
    → split_first b'\n' s.buffer ≡ some (c ∷ cs, rest)
    → lookup (c ∷ cs) server.sites ≡ some id
    → read_line server s ≡ record s { signal = false; buffer = rest; task = connecting id }
unfolding read_line select
read_line-listed server s c cs rest id n o l f = simp (read_line, select, n, o, l, f)

-- From any session that waits for a name and has an open channel: when what is in the buffer and the
-- bytes that come next are at most 1000 and begin with a line that is the name of a site, not empty, then
-- the task goes on to connect to that site, and what follows the line stays in the buffer.
pub typed_name-connects :
    (server : Server) (s : Session) (bytes : Bytes) (c : ℕ) (cs rest : Bytes) (id : ℕ)
    → s.task ≡ selecting
    → s.state ≡ select_site
    → s.chan ≡ opened
    → s.buffer ++ bytes ≡ (c ∷ cs) ++ b'\n' ∷ rest
    → IsFree b'\n' (c ∷ cs)
    → length (s.buffer ++ bytes) ≤ 1000
    → lookup (c ∷ cs) server.sites ≡ some id
    → step server (step server s (received bytes)) resumed
      ≡ record s { buffer = rest; signal = false; task = connecting id }
unfolding step data_received keep resume read_line select
typed_name-connects server s bytes c cs rest id t st ch b l short f =
    let e : data_received bytes s ≡ record s { buffer = s.buffer ++ bytes; signal = true } =
      data_received-waiting bytes s ch st ∙ keep-short bytes s short in
    rw (e, t)
      (read_line-listed server (record s { buffer = s.buffer ++ bytes; signal = true }) c cs rest id
        refl ch (rw b (split_first-append b'\n' (c ∷ cs) rest l)) f)

-- From a session that waits for the websocket of a site, with an open channel, where the websocket is accepted,
-- at most 1000 bytes come before the first flush is over, and both flushes succeed: the session is then in
-- its main loop, what was in the buffer was sent twice, and the bytes that came are still in the buffer.
pub flush-twice :
    (server : Server) (s : Session) (bytes : Bytes) (id : ℕ)
    → s.task ≡ connecting id
    → s.state ≡ select_site
    → s.chan ≡ opened
    → length bytes ≤ 1000
    → let s' =
        step server (step server (step server s (connects true)) (received bytes)) (flushes true) in
      (s'.sent ≡ s.sent ++ s.buffer ∷ s.buffer ∷ []) × (s'.task ≡ proxying) × (s'.buffer ≡ bytes)
unfolding step data_received keep connected flushed
flush-twice server s bytes id t st ch short =
    let after = record s {
      task = flushing id s.buffer;
      buffer = [];
      sent = s.sent ++ s.buffer ∷ [];
    } in
    let e : connected true s ≡ after = rw t refl in
    let e' : data_received bytes after ≡ record after { buffer = bytes; signal = true } =
      data_received-waiting bytes after ch st ∙ keep-short bytes after short in
    rw (e, e') (append_assoc s.sent (s.buffer ∷ []) (s.buffer ∷ []), rw ch refl, refl)
