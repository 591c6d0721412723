-- ===== src/Sites/Consumers/Delivery.antt =====
-- That `SiteMonitorConsumer` of manager/director/apps/sites/consumers.py gives every monitor what the
-- browser sends.
use director.Prelude.{
  String, Bool, true, false, List, [], ◌∷◌, ◌++◌, get_elem?, length, if◌then◌else◌, All, All-append,
  In, ◌≡◌, refl, sym, ap, ◌∙◌, ◌⊎◌, inl, inr, Bool-cases, append_assoc, arith,
}
use director.Sites.Consumers.Watching.{
  Sock, Task, opening, finished, replaying, Monitor, put, deliver, deliver_newest, receive,
}

-- An open websocket was sent all of these messages.
abbrev pub Covers : List String → Sock → Type 0
Covers messages w = w.alive ≡ true → All (λ m. In m w.delivered) messages

-- What the task has done: the newest websocket was sent the messages that are pending up to the next.
abbrev pub IsUnderWay : Monitor → Task → Type 0
IsUnderWay s opening = (s.initialized ≡ false) × (s.pending ≡ s.received)
IsUnderWay s finished = Unit
IsUnderWay s (replaying next newest) =
    (s.initialized ≡ false)
    × (s.pending ≡ s.received)
    × ((sent : List String) × (todo : List String) × (s.pending ≡ sent ++ todo)
        × (length sent ≡ next)
        × Covers sent newest)

abbrev pub IsServing : Monitor → Type 0
IsServing s = All (Covers s.received) s.socks × IsUnderWay s s.task

-- Once the connection is closed nothing is promised.
unfoldable pub IsSound : Monitor → Type 0
IsSound s = (s.closed ≡ true) ⊎ IsServing s

In-left : (m : String) (xs ys : List String) → In m xs → In m (xs ++ ys)
In-left m [] ys h = elim h [ ]
In-left m (x ∷ xs) ys (inl e) = inl e
In-left m (x ∷ xs) ys (inr h) = inr (In-left m xs ys h)

In-last : (m : String) (xs : List String) → In m (xs ++ m ∷ [])
In-last m [] = inl refl
In-last m (x ∷ xs) = inr (In-last m xs)

All-left : (ms xs ys : List String) → All (λ m. In m xs) ms → All (λ m. In m (xs ++ ys)) ms
All-left [] xs ys h = tt
All-left (m ∷ ms) xs ys (h, hs) = (In-left m xs ys h, All-left ms xs ys hs)

pub put-Covers :
    (messages : List String) (m : String) (w : Sock)
    → Covers messages w
    → Covers (messages ++ m ∷ []) (put m w)
put-Covers messages m w h alive =
    All-append (λ x. In x (w.delivered ++ m ∷ [])) messages (m ∷ [])
      (All-left messages w.delivered (m ∷ []) (h alive)) (In-last m w.delivered, tt)

pub if_true : {A : Type 0} (b : Bool) (x y : A) → b ≡ true → (if b then x else y) ≡ x
if_true true x y e = refl
if_true false x y e = absurd (ground (arith, e))

pub if_false : {A : Type 0} (b : Bool) (x y : A) → b ≡ false → (if b then x else y) ≡ y
if_false true x y e = absurd (ground (arith, e))
if_false false x y e = refl

deliver-Covers :
    (messages : List String) (m : String) (ws : List Sock)
    → All (Covers messages) ws
    → (deliver m ws).0 ≡ true
    → All (Covers (messages ++ m ∷ [])) (deliver m ws).1
deliver-Covers messages m [] h e = tt
deliver-Covers messages m (w ∷ ws) (h, hs) e = elim (Bool-cases w.alive) [
  | inl f ↦
      let shape : deliver m (w ∷ ws) ≡ ((deliver m ws).0, put m w ∷ (deliver m ws).1) =
        if_true w.alive _ _ f in
      let e' : (deliver m ws).0 ≡ true = ap (λ r. r.0) (sym shape) ∙ e in
      rw shape (put-Covers messages m w h, deliver-Covers messages m ws hs e')
  | inr f ↦
      let shape : deliver m (w ∷ ws) ≡ (false, w ∷ ws) = if_false w.alive _ _ f in
      absurd (ground (arith, ap (λ r. r.0) (sym shape) ∙ e))
]

newest-IsUnderWay :
    (m : String) (s s' : Monitor)
    → s'.received ≡ s.received ++ m ∷ []
    → s'.pending ≡ (if s.initialized then s.pending else s.pending ++ m ∷ [])
    → s'.initialized ≡ s.initialized
    → (t : Task) → IsUnderWay s t
    → (deliver_newest m t).0 ≡ true
    → IsUnderWay s' (deliver_newest m t).1
newest-IsUnderWay m s s' r p i opening (fresh, same) e =
    (i ∙ fresh, p ∙ if_false s.initialized _ _ fresh ∙ ap (λ l. l ++ m ∷ []) same ∙ sym r)
newest-IsUnderWay m s s' r p i finished h e = tt
newest-IsUnderWay m s s' r p i (replaying next w) (fresh, same, (sent, todo, split, n, covers)) e =
    let grown = p ∙ if_false s.initialized _ _ fresh in
    let split' : s'.pending ≡ sent ++ (todo ++ m ∷ []) =
      grown ∙ ap (λ l. l ++ m ∷ []) split ∙ append_assoc sent todo (m ∷ []) in
    let same' = grown ∙ ap (λ l. l ++ m ∷ []) same ∙ sym r in
    elim (Bool-cases w.listed) [
      | inr f ↦
          let shape : deliver_newest m (replaying next w) ≡ (true, replaying next w) =
            if_false w.listed _ _ f in
          rw shape (i ∙ fresh, same', (sent, todo ++ m ∷ [], split', n, covers))
      | inl f ↦ elim (Bool-cases w.alive) [
        | inl g ↦
            let shape : deliver_newest m (replaying next w) ≡ (true, replaying next (put m w)) =
              if_true w.listed _ _ f ∙ if_true w.alive _ _ g in
            rw shape (
              i ∙ fresh,
              same',
              (
                sent,
                todo ++ m ∷ [],
                split',
                n,
                λ alive. All-left sent w.delivered (m ∷ []) (covers alive),
              ),
            )
        | inr g ↦
            let shape : deliver_newest m (replaying next w) ≡ (false, replaying next w) =
              if_true w.listed _ _ f ∙ if_false w.alive _ _ g in
            absurd (ground (arith, ap (λ r. r.0) (sym shape) ∙ e))
      ]
    ]

-- The ways in which `receive` ends.
data Received (m : String) (s : Monitor) : Type 0 where
  ignored : receive m s ≡ s → Received m s
  raised : (receive m s).closed ≡ true → Received m s
  delivered :
      (receive m s).received ≡ s.received ++ m ∷ []
      → (receive m s).pending ≡ (if s.initialized then s.pending else s.pending ++ m ∷ [])
      → (receive m s).initialized ≡ s.initialized
      → (receive m s).socks ≡ (deliver m s.socks).1
      → (receive m s).task ≡ (deliver_newest m s.task).1
      → (deliver m s.socks).0 ≡ true
      → (deliver_newest m s.task).0 ≡ true
      → (receive m s).closed ≡ s.closed
      → Received m s

receive-cases : (m : String) (s : Monitor) → Received m s
unfolding receive
receive-cases m s = elim (Bool-cases s.connected) [
  | inr e ↦ ignored (if_false s.connected _ _ e)
  | inl e ↦ elim (Bool-cases (deliver m s.socks).0) [
    | inr f ↦
        let shape = if_true s.connected _ _ e ∙ if_false (deliver m s.socks).0 _ _ f in
        raised (ap (λ (x : Monitor). x.closed) shape)
    | inl f ↦ elim (Bool-cases (deliver_newest m s.task).0) [
      | inr g ↦
          let shape =
            if_true s.connected _ _ e
            ∙ if_true (deliver m s.socks).0 _ _ f
            ∙ if_false (deliver_newest m s.task).0 _ _ g in
          raised (ap (λ (x : Monitor). x.closed) shape)
      | inl g ↦
          let shape =
            if_true s.connected _ _ e
            ∙ if_true (deliver m s.socks).0 _ _ f
            ∙ if_true (deliver_newest m s.task).0 _ _ g in
          delivered (ap (λ (x : Monitor). x.received) shape) (ap (λ (x : Monitor). x.pending) shape)
            (ap (λ (x : Monitor). x.initialized) shape) (ap (λ (x : Monitor). x.socks) shape)
            (ap (λ (x : Monitor). x.task) shape) f g (ap (λ (x : Monitor). x.closed) shape)
    ]
  ]
]

pub receive-IsSound : (m : String) (s : Monitor) → IsSound s → IsSound (receive m s)
unfolding IsSound
receive-IsSound m s h = elim (receive-cases m s) [
  | ignored e ↦ rw e h
  | raised e ↦ inl e
  | delivered r p i ws t f g c ↦ elim h [
    | inl closed ↦ inl (c ∙ closed)
    | inr (covers, task) ↦ inr (
      rw (r, ws) (deliver-Covers s.received m s.socks covers f),
      rw t (newest-IsUnderWay m s (receive m s) r p i s.task task g),
    )
  ]
]

pub next_pending :
    (sent todo : List String) → get_elem? (sent ++ todo) (length sent) ≡ get_elem? todo 0
next_pending [] todo = refl
next_pending (x ∷ sent) todo = next_pending sent todo
