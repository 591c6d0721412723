-- ===== src/Shell/Bounds.antt =====
-- The invariant of the sessions of shell/shell/server.py, and what closing does to it.
use director.Prelude.{
  Bytes, split_first, ℕ, eqb, ◌≤◌, ◌≡◌, refl, Bool, true, false, Option, none, some, [], ◌∷◌, inl,
  inr, Bool-cases, Option-cases, arith, length, if◌then◌else◌,
}
use director.Shell.Session.{
  Channel, gone, opened, closing, Task, connecting, flushing, finished, crashed, Server, Session,
  new_session, lookup, after_flush, close, close_channel, start_closing, give_up,
}

-- The site is one that the manager listed for the user.
abbrev pub IsListed : Server → ℕ → Type 0
IsListed server id = (name : Bytes) × (lookup name server.sites ≡ some id)

abbrev pub IsListedWebsock : Server → Option ℕ → Type 0
IsListedWebsock server none = Unit
IsListedWebsock server (some id) = IsListed server id

abbrev pub IsListedTask : Server → Task → Type 0
IsListedTask server (connecting id) = IsListed server id
IsListedTask server (flushing id buf) = IsListed server id
IsListedTask server _ = Unit

-- While there is a channel, at most 1000 bytes wait.
abbrev pub IsBounded : Channel → Bytes → Type 0
IsBounded gone buffer = Unit
IsBounded opened buffer = length buffer ≤ 1000
IsBounded closing buffer = length buffer ≤ 1000

pub record Inv (server : Server) (s : Session) : Type 0 where
  pub bounded : IsBounded s.chan s.buffer
  pub task_listed : IsListedTask server s.task
  pub websock_listed : IsListedWebsock server s.websock

pub new_session-Inv : (server : Server) → Inv server new_session
unfolding new_session
new_session-Inv server = record { bounded = tt; task_listed = tt; websock_listed = tt }

pub close_channel-IsBounded :
    (c : Channel) (buffer : Bytes) → IsBounded c buffer → IsBounded (close_channel c) buffer
close_channel-IsBounded gone buffer h = tt
close_channel-IsBounded opened buffer h = tt
close_channel-IsBounded closing buffer h = h

pub start_closing-IsBounded :
    (c : Channel) (buffer : Bytes) → IsBounded c buffer → IsBounded (start_closing c) buffer
start_closing-IsBounded gone buffer h = tt
start_closing-IsBounded opened buffer h = h
start_closing-IsBounded closing buffer h = h

-- A buffer that is no longer than the one before.
pub shorter-IsBounded :
    (c : Channel) (b b' : Bytes) → length b' ≤ length b → IsBounded c b → IsBounded c b'
shorter-IsBounded gone b b' l h = tt
shorter-IsBounded opened b b' l h = omega arith
shorter-IsBounded closing b b' l h = omega arith

pub split_first-length :
    (separator : ℕ) (buffer line rest : Bytes)
    → split_first separator buffer ≡ some (line, rest)
    → length rest ≤ length buffer
split_first-length separator [] line rest e = ground arith
split_first-length separator (c ∷ cs) line rest e = elim (Bool-cases (eqb c separator)) [
  | inl n ↦ ground arith
  | inr n ↦ elim (Option-cases (split_first separator cs)) [
    | inl f ↦ ground arith
    | inr ((l, r), f) ↦ let ih = split_first-length separator cs l r f in ground arith
  ]
]

pub after_flush-IsListed : (server : Server) (c : Channel) → IsListedTask server (after_flush c)
after_flush-IsListed server gone = tt
after_flush-IsListed server opened = tt
after_flush-IsListed server closing = tt

pub ended-IsListed :
    (server : Server) (c : Channel) → IsListedTask server (elim c [ gone ↦ crashed | _ ↦ finished ])
ended-IsListed server gone = tt
ended-IsListed server opened = tt
ended-IsListed server closing = tt

module _ {server : Server} where
  pub IsInv-if :
      (b : Bool) (s s' : Session)
      → (b ≡ true → Inv server s)
      → Inv server s'
      → Inv server (if b then s else s')
  IsInv-if true s s' h h' = h refl
  IsInv-if false s s' h h' = h'

  pub close-Inv : (s : Session) → Inv server s → Inv server (close s)
  unfolding close
  close-Inv s h = record {
    bounded = close_channel-IsBounded s.chan s.buffer h.bounded;
    task_listed = h.task_listed;
    websock_listed = tt;
  }

  pub give_up-Inv : (s : Session) → Inv server s → Inv server (give_up s)
  unfolding close
  give_up-Inv s h = record {
    bounded = (close-Inv s h).bounded;
    task_listed = tt;
    websock_listed = tt;
  }
