-- ===== src/Shell/Admission.antt =====
-- What `ShellSSHServer` of shell/shell/server.py promises of the users that it lets in.
use director.Prelude.{
  Bytes, split_first, ℕ, ap, sym, ◌∙◌, refl, arith, ◌⊎◌, inl, inr, ◌≡◌, ◌≢◌, true, false,
  Bool-cases, Option-cases, Option, none, some, List, [], ◌∷◌, eq_bytes, eq_bytes-eq,
}
use director.Shell.Auth.{
  Auth, root, is_some_of, is_full, check_password_sync, check_named, validate_password, root_shell,
  shell, session_requested,
}

is_some_of-eq : (name : Bytes) (o : Option Bytes) → is_some_of name o ≡ true → o ≡ some name
is_some_of-eq name none e = ground arith
is_some_of-eq name (some other) e = rw (eq_bytes-eq name other e) refl

is_full-NotNil : (bytes : Bytes) → is_full bytes ≡ true → bytes ≢ []
is_full-NotNil [] e = ground arith
is_full-NotNil (c ∷ cs) e = ground arith

-- The user and the site that a user name stands for.
abbrev pub IsNamed : Bytes → Bytes → Option Bytes → Type 0
IsNamed username name site =
    (split_first b'/' username ≡ none) × (name ≡ username) × (site ≡ none)
    ⊎ ((rest : Bytes) × (split_first b'/' username ≡ some (name, rest)) × (site ≡ some rest))

module _ (authenticate : Bytes → Bytes → Option (List (Bytes × ℕ))) where
  check_password_sync-accepts :
      (name password : Bytes) (a a' : Auth)
      → check_password_sync authenticate name password a ≡ (true, a')
      → (sites : List (Bytes × ℕ)) × (authenticate name password ≡ some sites)
        × (a' ≡ record a { sites = some sites })
  unfolding check_password_sync
  check_password_sync-accepts name password a a' h =
      elim (Option-cases (authenticate name password)) [
        | inl e ↦ ground arith
        | inr (sites, e) ↦ (sites, e, sym (ap (λ x. x.1) (rw (e, check_password_sync) at h)))
      ]

  check_named-accepts :
      (username password : Bytes) (a a' : Auth)
      → check_named authenticate username password a ≡ (true, a')
      → (name : Bytes) × (site : Option Bytes) × (sites : List (Bytes × ℕ)) × IsNamed username name
          site
        × (authenticate name password ≡ some sites)
        × (a' ≡ record a { username = some name; site_name = site; sites = some sites })
  unfolding check_named
  check_named-accepts username password a a' h = elim (Option-cases (split_first b'/' username)) [
    | inl e ↦
        let (sites, f, g) =
          check_password_sync-accepts username password
            (record a { username = some username; site_name = none }) a'
            (rw (e, check_named) at h) in
        (username, none, sites, inl (e, refl, refl), f, g)
    | inr ((name, rest), e) ↦
        let (sites, f, g) =
          check_password_sync-accepts name password
            (record a { username = some name; site_name = some rest }) a'
            (rw (e, check_named) at h) in
        (name, some rest, sites, inr (rest, e, refl), f, g)
  ]

-- Whoever is let in gave the name that the connection began with; and either it is root, with a password
-- that is not empty, or the manager knows the user and the password, and the session then has the
-- user's name, the site after the slash, and exactly the sites that the manager answered.
validate_password-accepts :
    (authenticate : Bytes → Bytes → Option (List (Bytes × ℕ))) (username password : Bytes)
    (a a' : Auth)
    → validate_password authenticate username password a ≡ (true, a')
    → (username ≢ [])
      × (a.raw_username ≡ some username)
      × ((username ≡ root) × (password ≢ []) × (a' ≡ record a { username = some root })
          ⊎ ((name : Bytes) × (site : Option Bytes) × (sites : List (Bytes × ℕ)) × IsNamed username
                name site
              × (authenticate name password ≡ some sites)
              × (a' ≡ record a { username = some name; site_name = site; sites = some sites })))
unfolding validate_password
validate_password-accepts authenticate [] password a a' h = ground arith
validate_password-accepts authenticate (c ∷ cs) password a a' h =
    elim (Bool-cases (is_some_of (c ∷ cs) a.raw_username)) [
      | inl same ↦
          let raw = is_some_of-eq (c ∷ cs) a.raw_username same in
          elim (Bool-cases (eq_bytes (c ∷ cs) root)) [
            | inl r ↦
                let is_root = eq_bytes-eq (c ∷ cs) root r in
                let h' = rw (same, r) at h in
                (
                  (ground arith),
                  raw,
                  inl (
                    is_root,
                    is_full-NotNil password (ap (λ x. x.0) h'),
                    sym (ap (λ x. x.1) h') ∙ ap (λ n. record a { username = some n }) is_root,
                  ),
                )
            | inr n ↦ (
              (ground arith),
              raw,
              inr (check_named-accepts authenticate (c ∷ cs) password a a' (rw (same, n) at h)),
            )
          ]
      | inr other ↦ ground arith
    ]

root-is_not : (name : Bytes) → name ≡ root → eq_bytes root name ≡ false → ⊥
root-is_not name q n = let n' : true ≡ false = rw q at n in ground arith

named-session_requested :
    (a : Auth) (name : Bytes) (site : Option Bytes) (sites : List (Bytes × ℕ))
    → eq_bytes root name ≡ false
    → session_requested (record a { username = some name; site_name = site; sites = some sites })
      ≡ some (shell record { sites = sites; site_name = site })
unfolding session_requested
named-session_requested a name site sites n = rw n refl

-- A connection that is let in is given a session without an assertion that fails: a shell of root where the
-- name before the slash is root, and otherwise a session of exactly the sites that the manager answered
-- for that name and the password, with the site after the slash as the one to connect to.
pub validate_password-session_requested :
    (authenticate : Bytes → Bytes → Option (List (Bytes × ℕ))) (username password : Bytes)
    (a a' : Auth)
    → validate_password authenticate username password a ≡ (true, a')
    → (name : Bytes) × (site : Option Bytes) × IsNamed username name site
      × ((name ≡ root) × (session_requested a' ≡ some root_shell)
          ⊎ ((name ≢ root)
              × ((sites : List (Bytes × ℕ)) × (authenticate name password ≡ some sites)
                  × (session_requested a'
                      ≡ some (shell record { sites = sites; site_name = site })))))
unfolding session_requested
validate_password-session_requested authenticate username password a a' h =
    elim (validate_password-accepts authenticate username password a a' h).2 [
      | inl (r, _, e) ↦ (root, none, inl (rw r refl, sym r, refl), inl (refl, rw e refl))
      | inr (name, site, sites, named, f, e) ↦ elim (Bool-cases (eq_bytes root name)) [
        | inl r ↦ (name, site, named, inl (sym (eq_bytes-eq root name r), rw (e, r) refl))
        | inr n ↦ (
          name,
          site,
          named,
          inr (
            (λ q. root-is_not name q n),
            (sites, f, ap session_requested e ∙ named-session_requested a name site sites n),
          ),
        )
      ]
    ]
