-- ===== src/Sites/Consumers/Losses.antt =====
-- What opening, replaying and losing a websocket leaves of the promises of `SiteMonitorConsumer`,
-- manager/director/apps/sites/consumers.py.
use director.Prelude.{
  ℕ, zero, suc, ◌+◌, String, true, false, none, some, List, [], ◌∷◌, ◌++◌, get_elem?, if◌then◌else◌,
  All, All-append, ◌≡◌, refl, sym, ap, ◌∙◌, inl, inr, Bool-cases, append_assoc, append-nil,
  length-append, arith,
}
use director.Prelude.Paths.{is_null}
use director.Sites.Consumers.Watching.{
  Sock, Task, opening, finished, replaying, Monitor, new_sock, put, open_sock, settle, replay,
  initialize, dies, removes, newest_listed, close_empty, on_newest,
}
use director.Sites.Consumers.Delivery.{
  Covers, IsUnderWay, IsServing, IsSound, if_true, if_false, put-Covers, next_pending,
}

-- What is true of the websockets stays true when some are lost.
pub dies-All :
    (messages : List String) (n : ℕ) (ws : List Sock)
    → All (Covers messages) ws
    → All (Covers messages) (dies n ws)
dies-All messages n [] h = tt
dies-All messages zero (w ∷ ws) (h, hs) = (λ alive. absurd (ground (arith, alive)), hs)
dies-All messages (suc n) (w ∷ ws) (h, hs) = (h, dies-All messages n ws hs)

pub removes-All :
    (messages : List String) (n : ℕ) (ws : List Sock)
    → All (Covers messages) ws
    → All (Covers messages) (removes n ws)
removes-All messages n [] h = tt
removes-All messages zero (w ∷ ws) (h, hs) = elim (Bool-cases w.alive) [
  | inl e ↦ rw (if_true w.alive (w ∷ ws) ws e) (h, hs)
  | inr e ↦ rw (if_false w.alive (w ∷ ws) ws e) hs
]
removes-All messages (suc n) (w ∷ ws) (h, hs) = (h, removes-All messages n ws hs)

-- Nothing is owed to a websocket that is closed.
pub newest_dies-IsUnderWay :
    (s : Monitor) (f : Sock → Sock)
    → ((w : Sock) → (f w).alive ≡ true → w.alive ≡ true)
    → ((w : Sock) → (f w).delivered ≡ w.delivered)
    → (t : Task) → IsUnderWay s t
    → IsUnderWay s (on_newest f t)
newest_dies-IsUnderWay s f a d opening h = h
newest_dies-IsUnderWay s f a d finished h = h
newest_dies-IsUnderWay s f a d (replaying next w) (fresh, same, (sent, todo, split, n, covers)) =
    (fresh, same, (sent, todo, split, n, λ alive. rw (d w) (covers (a w alive))))

pub close_empty-IsSound : (s : Monitor) → IsSound s → IsSound (close_empty s)
unfolding IsSound
close_empty-IsSound s h = elim (Bool-cases (is_null s.socks)) [
  | inr e ↦ let shape : close_empty s ≡ s = if_false (is_null s.socks) _ s e in rw shape h
  | inl e ↦ elim (Bool-cases (newest_listed s.task)) [
    | inl f ↦
        let shape : close_empty s ≡ s =
          if_true (is_null s.socks) _ s e ∙ if_true (newest_listed s.task) s _ f in
        rw shape h
    | inr f ↦
        let shape : close_empty s ≡ record s { closed = true } =
          if_true (is_null s.socks) _ s e ∙ if_false (newest_listed s.task) s _ f in
        inl (ap (λ (x : Monitor). x.closed) shape)
  ]
]

settle-IsServing :
    (w : Sock) (s : Monitor)
    → All (Covers s.received) s.socks
    → s.initialized ≡ false
    → s.pending ≡ s.received
    → Covers s.received w
    → IsServing (settle w s)
settle-IsServing w s covers fresh same h = elim (Bool-cases w.listed) [
  | inl e ↦ (
    rw (if_true w.listed (s.socks ++ w ∷ []) s.socks e)
        (All-append (Covers s.received) s.socks (w ∷ []) covers (h, tt)),
    (fresh, same),
  )
  | inr e ↦ (rw (if_false w.listed (s.socks ++ w ∷ []) s.socks e) covers, (fresh, same))
]

pub replay_end :
    (next : ℕ) (w : Sock) (s : Monitor)
    → get_elem? s.pending next ≡ none
    → replay next w s ≡ settle w s
replay_end next w s e = rw (e, replay) refl

pub replay_next :
    (next : ℕ) (w : Sock) (s : Monitor) (m : String)
    → get_elem? s.pending next ≡ some m
    → replay next w s
      ≡ (if w.alive then record s { task = replaying (next + 1) (put m w) } else settle w s)
replay_next next w s m e = rw (e, replay) refl

-- The next of the pending messages is sent, or there is none, and all were sent.
pub replay-IsServing :
    (next : ℕ) (w : Sock) (s : Monitor)
    → All (Covers s.received) s.socks
    → IsUnderWay s (replaying next w)
    → IsServing (replay next w s)
replay-IsServing next w s covers (fresh, same, (sent, [], split, n, sent_all)) =
    let all : s.received ≡ sent = sym same ∙ split ∙ append-nil sent in
    let none_left : get_elem? s.pending next ≡ none =
      ap (λ l. get_elem? l next) split
      ∙ ap (get_elem? (sent ++ [])) (sym n)
      ∙ next_pending sent [] in
    rw (replay_end next w s none_left) (settle-IsServing w s covers fresh same (rw all sent_all))
replay-IsServing next w s covers (fresh, same, (sent, m ∷ todo, split, n, sent_all)) =
    let one_left : get_elem? s.pending next ≡ some m =
      ap (λ l. get_elem? l next) split
      ∙ ap (get_elem? (sent ++ m ∷ todo)) (sym n)
      ∙ next_pending sent (m ∷ todo) in
    elim (Bool-cases w.alive) [
      | inl e ↦
          let shape : replay next w s ≡ record s { task = replaying (next + 1) (put m w) } =
            replay_next next w s m one_left ∙ if_true w.alive _ _ e in
          rw shape (
            covers,
            (
              fresh,
              same,
              (
                sent ++ m ∷ [],
                todo,
                split ∙ sym (append_assoc sent (m ∷ []) todo),
                length-append sent (m ∷ []) ∙ ap (λ k. k + 1) n,
                put-Covers sent m w sent_all,
              ),
            ),
          )
      | inr e ↦
          let shape : replay next w s ≡ settle w s =
            replay_next next w s m one_left ∙ if_false w.alive _ _ e in
          rw shape
            (settle-IsServing w s covers fresh same (λ alive. absurd (ground (arith, e, alive))))
    ]

pub open_sock-IsServing :
    (s : Monitor)
    → All (Covers s.received) s.socks
    → s.task ≡ opening
    → s.initialized ≡ false
    → s.pending ≡ s.received
    → IsServing (open_sock s)
open_sock-IsServing s covers task fresh same = go s.pending refl
  where
    go : (l : List String) → s.pending ≡ l → IsServing (open_sock s)
    go [] e =
        let shape : open_sock s ≡ record s { socks = s.socks ++ new_sock ∷ [] } =
          rw (e, open_sock) refl in
        let nothing : Covers s.received new_sock = λ alive. rw (sym same ∙ e) tt in
        rw shape (
          All-append (Covers s.received) s.socks (new_sock ∷ []) covers (nothing, tt),
          rw task (fresh, same),
        )
    go (m ∷ ms) e =
        let shape : open_sock s ≡ record s { task = replaying 0 new_sock } =
          rw (e, open_sock) refl in
        rw shape (covers, (fresh, same, ([], s.pending, refl, refl, λ alive. tt)))

pub initialize-IsSound : (s : Monitor) → IsSound s → IsSound (initialize s)
unfolding IsSound
initialize-IsSound s h = elim (Bool-cases s.connected) [
  | inr e ↦
      let shape : initialize s ≡ record s { task = finished } = if_false s.connected _ _ e in
      rw shape (elim h [ inl c ↦ inl c | inr (covers, _) ↦ inr (covers, tt) ])
  | inl e ↦ elim (Bool-cases (is_null s.socks)) [
    | inl f ↦
        let shape : initialize s ≡ record s { task = finished; connected = false; closed = true } =
          if_true s.connected _ _ e ∙ if_true (is_null s.socks) _ _ f in
        inl (ap (λ (x : Monitor). x.closed) shape)
    | inr f ↦
        let shape : initialize s ≡ record s { task = finished; initialized = true; pending = [] } =
          if_true s.connected _ _ e ∙ if_false (is_null s.socks) _ _ f in
        rw shape (elim h [ inl c ↦ inl c | inr (covers, _) ↦ inr (covers, tt) ])
  ]
]
