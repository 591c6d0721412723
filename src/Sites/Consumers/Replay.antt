-- ===== src/Sites/Consumers/Replay.antt =====
-- The steps of `SiteMonitorConsumer` of manager/director/apps/sites/consumers.py, and what every monitor
-- has been sent after them.
use director.Prelude.{
  ℕ, Bool, true, false, List, [], ◌∷◌, get_elem?, if◌then◌else◌, ◌≡◌, refl, sym, ap, ◌∙◌, inl, inr,
  Bool-cases, Option-cases, arith,
}
use director.Prelude.Paths.{is_null}
use director.Sites.Consumers.Watching.{
  Sock, Task, opening, finished, replaying, Monitor, new_monitor, replay, removes, Event, receives,
  opens, proceeds, initializes, closes, disconnects, newest_dies, newest_noticed, sock_dies,
  sock_noticed, on_opens, on_proceeds, on_initializes, on_newest, handle, handle_all,
}
use director.Sites.Consumers.Delivery.{
  IsUnderWay, IsServing, IsSound, if_true, if_false, receive-IsSound,
}
use director.Sites.Consumers.Losses.{
  dies-All, removes-All, newest_dies-IsUnderWay, close_empty-IsSound, replay-IsServing, replay_end,
  replay_next, open_sock-IsServing, initialize-IsSound,
}

if_closed :
    (b : Bool) (x y : Monitor)
    → x.closed ≡ true
    → y.closed ≡ true
    → (if b then x else y).closed ≡ true
if_closed true x y e f = e
if_closed false x y e f = f

replay-closed :
    (next : ℕ) (w : Sock) (s : Monitor) → s.closed ≡ true → (replay next w s).closed ≡ true
replay-closed next w s e = elim (Option-cases (get_elem? s.pending next)) [
  | inl f ↦ rw (replay_end next w s f) e
  | inr (m, f) ↦ rw (replay_next next w s m f) (if_closed w.alive _ _ e e)
]

opens-IsSound : (s : Monitor) (t : Task) → s.task ≡ t → IsSound s → IsSound (on_opens t s)
unfolding IsSound
opens-IsSound s opening e (inl c) = inl (if_closed (is_null s.pending) _ _ c c)
opens-IsSound s opening e (inr (covers, task)) =
    let (fresh, same) : IsUnderWay s opening = rw e at task in
    inr (open_sock-IsServing s covers e fresh same)
opens-IsSound s finished e h = h
opens-IsSound s (replaying next w) e h = h

proceeds-IsSound : (s : Monitor) (t : Task) → s.task ≡ t → IsSound s → IsSound (on_proceeds t s)
unfolding IsSound
proceeds-IsSound s opening e h = h
proceeds-IsSound s finished e h = h
proceeds-IsSound s (replaying next w) e (inl c) = inl (replay-closed next w s c)
proceeds-IsSound s (replaying next w) e (inr (covers, task)) =
    let task' : IsUnderWay s (replaying next w) = rw e at task in
    inr (replay-IsServing next w s covers task')

initializes-IsSound : (s : Monitor) (t : Task) → IsSound s → IsSound (on_initializes t s)
initializes-IsSound s opening h = initialize-IsSound s h
initializes-IsSound s finished h = h
initializes-IsSound s (replaying next w) h = h

-- Some websockets are lost, or closed.
lose-IsSound :
    (s s' : Monitor) → s'.closed ≡ s.closed → (IsServing s → IsServing s') → IsSound s → IsSound s'
unfolding IsSound
lose-IsSound s s' e f (inl c) = inl (e ∙ c)
lose-IsSound s s' e f (inr h) = inr (f h)

notice-alive :
    (w : Sock) → (if w.alive then w else record w { listed = false }).alive ≡ true → w.alive ≡ true
notice-alive w e = elim (Bool-cases w.alive) [
  | inl f ↦ f
  | inr f ↦
      let shape = if_false w.alive w (record w { listed = false }) f in
      sym (ap (λ (x : Sock). x.alive) shape) ∙ e
]

notice-delivered :
    (w : Sock) → (if w.alive then w else record w { listed = false }).delivered ≡ w.delivered
notice-delivered w = elim (Bool-cases w.alive) [
  | inl f ↦ ap (λ (x : Sock). x.delivered) (if_true w.alive w (record w { listed = false }) f)
  | inr f ↦ ap (λ (x : Sock). x.delivered) (if_false w.alive w (record w { listed = false }) f)
]

closed-IsSound : (s : Monitor) → s.closed ≡ true → IsSound s
unfolding IsSound
closed-IsSound s e = inl e

handle-IsSound : (event : Event) (s : Monitor) → IsSound s → IsSound (handle event s)
unfolding handle
handle-IsSound (receives m) s h = receive-IsSound m s h
handle-IsSound opens s h = opens-IsSound s s.task refl h
handle-IsSound proceeds s h = proceeds-IsSound s s.task refl h
handle-IsSound initializes s h = initializes-IsSound s s.task h
handle-IsSound closes s h = closed-IsSound (handle closes s) refl
handle-IsSound disconnects s h = closed-IsSound (handle disconnects s) refl
handle-IsSound (sock_dies n) s h =
    lose-IsSound s (handle (sock_dies n) s) refl
      (λ (covers, task). (dies-All s.received n s.socks covers, task)) h
handle-IsSound (sock_noticed n) s h =
    close_empty-IsSound (record s { socks = removes n s.socks })
      (lose-IsSound s (record s { socks = removes n s.socks }) refl
        (λ (covers, task). (removes-All s.received n s.socks covers, task)) h)
handle-IsSound newest_dies s h =
    lose-IsSound s (handle newest_dies s) refl
      (λ (covers, task). (
        covers,
        newest_dies-IsUnderWay s (λ w. record w { alive = false })
            (λ w alive. absurd (ground (arith, alive))) (λ w. refl) s.task task,
      ))
      h
handle-IsSound newest_noticed s h =
    let f = λ (w : Sock). if w.alive then w else record w { listed = false } in
    close_empty-IsSound (record s { task = on_newest f s.task })
      (lose-IsSound s (record s { task = on_newest f s.task }) refl
        (λ (covers, task).
          (covers, newest_dies-IsUnderWay s f notice-alive notice-delivered s.task task))
        h)

-- From the moment that `connect` has accepted, whatever the browser sends and whenever the appservers
-- answer or go away: unless the connection to the browser is closed, every open websocket to a monitor
-- has been sent every message of the browser, but for the newest one while older messages are still
-- being sent to it, and to that one all those before the next.
pub handle_all-IsSound : (events : List Event) → IsSound (handle_all events new_monitor)
unfolding IsSound
handle_all-IsSound events = go events new_monitor (inr (tt, (refl, refl)))
  where
    go : (events : List Event) (s : Monitor) → IsSound s → IsSound (handle_all events s)
    go [] s h = h
    go (event ∷ events) s h = go events (handle event s) (handle-IsSound event s h)
