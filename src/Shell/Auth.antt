-- ===== src/Shell/Auth.antt =====
-- shell/shell/server.py: how `ShellSSHServer` lets a user in, and the session that the user gets.
use director.Prelude.{
  eq_bytes, Bytes, split_first, ℕ, Bool, true, false, Option, none, some, List, [], ◌∷◌,
  if◌then◌else◌,
}
use director.Shell.Session.{Server}

-- What is known of the user of a connection.
pub record Auth : Type 0 where
  pub raw_username : Option Bytes
  pub username : Option Bytes
  pub site_name : Option Bytes
  pub sites : Option (List (Bytes × ℕ))

abbrev pub root : Bytes
root = b'r' ∷ b'o' ∷ b'o' ∷ b't' ∷ []

unfoldable pub begin_auth : Bytes → Auth → Auth
begin_auth username a = record a { raw_username = some username }

abbrev pub is_some_of : Bytes → Option Bytes → Bool
is_some_of name none = false
is_some_of name (some other) = eq_bytes name other

abbrev pub is_full : Bytes → Bool
is_full [] = false
is_full _ = true

-- The manager's answer to a name and a password: the sites of the user, unless it refuses or fails.
module _ (authenticate : Bytes → Bytes → Option (List (Bytes × ℕ))) where
  unfoldable pub check_password_sync : Bytes → Bytes → Auth → Bool × Auth
  check_password_sync username password a = elim (authenticate username password) [
    | none ↦ (false, a)
    | some sites ↦ (true, record a { sites = some sites })
  ]

  -- The name up to the first slash is the user, what follows is the site.
  unfoldable pub check_named : Bytes → Bytes → Auth → Bool × Auth
  unfolding check_password_sync
  check_named username password a = elim (split_first b'/' username) [
    | none ↦
        check_password_sync username password
          (record a { username = some username; site_name = none })
    | some (name, site) ↦
        check_password_sync name password (record a { username = some name; site_name = some site })
  ]

  unfoldable pub validate_password : Bytes → Bytes → Auth → Bool × Auth
  unfolding check_named
  validate_password [] password a = (false, a)
  validate_password (c ∷ cs) password a =
      let username = c ∷ cs in
      if is_some_of username a.raw_username
      then (if eq_bytes username root
          then (is_full password, record a { username = some username })
          else check_named username password a)
      else (false, a)

-- The session that is made; none where `ShellSSHServerSession` asserts that it knows the user's sites.
pub data Requested : Type 0 where
  root_shell : Requested
  shell : Server → Requested

unfoldable pub session_requested : Auth → Option Requested
session_requested a = if is_some_of root a.username then some root_shell else elim a.username [
  | none ↦ none
  | some name ↦ elim a.sites [
    | none ↦ none
    | some sites ↦ some (shell record { sites = sites; site_name = a.site_name })
  ]
]
