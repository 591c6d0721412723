-- ===== src/Helper/Safety.antt =====
-- What the commands of orchestrator/helpers/files-helper.py guarantee: they stay inside the directory
-- of the site, and they report every error.
use director.Prelude.{
  ℕ, ◌≡◌, refl, String, Bool, true, false, ◌||◌, Option, some, List, [], ◌∷◌, any, if◌then◌else◌,
  Bool-cases, Option-cases, inl, inr, arith,
}
use director.Prelude.Exec.{
  Result, ok, err, Exec, Result-cases, handle, try_except, continue, pure, ◌>>=◌, ◌>>◌,
}
use director.Helper.Mode.{get_new_mode}
use director.Helper.Commands.{
  Stop, exit, os_error, Os, special_exit_code, is_absolute, check_relative, Sys, raised_as, call,
  stop, on_os_error, reported, new_mode, chroot_into, update_mode, chmod_cmd, rename_cmd, mkdir_cmd,
  create_cmd, rm_cmd, rmdir_recur_cmd,
}

-- The commands on paths of a site that `main` runs, with their arguments.
pub data Command : Type 0 where
  chmod : (path mode : String) → Command
  rename : (oldpath newpath : String) → Command
  mkdir create : (path : String) (mode : Option String) → Command
  rm rmdir_recur : (path : String) → Command

unfoldable pub run : {W : Type 0} → Os W → String → Command → Sys W (Unit {0})
unfolding chmod_cmd rename_cmd mkdir_cmd create_cmd rm_cmd rmdir_recur_cmd
run os directory (chmod path mode) = chmod_cmd os directory path mode
run os directory (rename oldpath newpath) = rename_cmd os directory oldpath newpath
run os directory (mkdir path mode) = mkdir_cmd os directory path mode
run os directory (create path mode) = create_cmd os directory path mode
run os directory (rm path) = rm_cmd os directory path
run os directory (rmdir_recur path) = rmdir_recur_cmd os directory path

abbrev pub paths : Command → List String
paths (chmod path mode) = path ∷ []
paths (rename oldpath newpath) = oldpath ∷ newpath ∷ []
paths (mkdir path mode) = path ∷ []
paths (create path mode) = path ∷ []
paths (rm path) = path ∷ []
paths (rmdir_recur path) = path ∷ []

-- The command ended well, or with the exit code whose text may be shown to the user.
abbrev pub IsReported : Result Stop (Unit {0}) → Type 0
IsReported (ok u) = Unit
IsReported (err (exit c message)) = c ≡ special_exit_code
IsReported (err (os_error e)) = ⊥

-- An exit has the special code.
abbrev IsMild : {A : Type 0} → Result Stop A → Type 0
IsMild (err (exit c message)) = c ≡ special_exit_code
IsMild r = Unit

single : (b : Bool) → (b || false) ≡ true → b ≡ true
single b h = ground arith

raised_as-IsMild : {A : Type 0} (r : Result String A) → IsMild (raised_as r)
raised_as-IsMild (ok a) = tt
raised_as-IsMild (err e) = tt

module _ {W : Type 0} where
  continue-IsMild :
      {A B : Type 0} (r : Result Stop A) (f : A → Sys W B) (w : W)
      → IsMild r
      → ((a : A) → IsMild (f a w).0)
      → IsMild (continue r f w).0
  continue-IsMild (ok a) f w h k = k a
  continue-IsMild (err (exit c message)) f w h k = h
  continue-IsMild (err (os_error e)) f w h k = tt

  new_mode-IsMild :
      (old : ℕ) (mode : Option String) (w : W) → IsMild (new_mode {W = W} old mode w).0
  unfolding new_mode
  new_mode-IsMild old mode w = elim (Option-cases (get_new_mode old mode)) [
    | inl bad ↦ rw (bad, new_mode) refl
    | inr (m, good) ↦ rw (good, new_mode) tt
  ]

  handled-IsReported :
      (r : Result Stop (Unit {0})) (w : W) → IsMild r → IsReported (handle r on_os_error w).0
  unfolding on_os_error
  handled-IsReported (ok u) w h = tt
  handled-IsReported (err (exit c message)) w h = h
  handled-IsReported (err (os_error e)) w h = refl

  -- A call behind the computation of a mode.
  moded-IsMild :
      (old : ℕ) (mode : Option String) (f : ℕ → Exec String W (Unit {0})) (w : W)
      → IsMild ((new_mode old mode >>= λ m. call (f m)) w).0
  moded-IsMild old mode f w =
      continue-IsMild (new_mode old mode w).0 _ (new_mode old mode w).1 (new_mode-IsMild old mode w)
        (λ m. raised_as-IsMild _)

  -- A call under a test.
  tested-IsMild :
      (b : Bool) (f : Exec String W (Unit {0})) (w : W)
      → IsMild ((if b then call f else pure tt) w).0
  tested-IsMild true f w = raised_as-IsMild (f w).0
  tested-IsMild false f w = tt

  reported-IsReported :
      (m : Sys W (Unit {0})) (w : W) → IsMild (m w).0 → IsReported (reported m w).0
  reported-IsReported m w h = handled-IsReported (m w).0 (m w).1 h

  guarded :
      (path : String) (m : Sys W (Unit {0})) (w : W)
      → IsReported (m w).0
      → IsReported ((check_relative path >> m) w).0
  guarded path m w h = elim (Bool-cases (is_absolute path)) [
    | inl absolute ↦ rw absolute refl
    | inr relative ↦ rw relative h
  ]

  check-absolute :
      (path : String) (m : Sys W (Unit {0})) (w : W)
      → is_absolute path ≡ true
      → (check_relative path >> m) w ≡ (err (exit special_exit_code "Invalid path"), w)
  check-absolute path m w h = rw h refl

-- A file that has just been opened can be closed.
abbrev pub ClosesOpened : {W : Type 0} → Os W → Type 0
ClosesOpened {W} os =
    (path : String) (mode fd : ℕ) (w : W)
    → (os.open_new path mode w).0 ≡ ok fd
    → (os.close fd (os.open_new path mode w).1).0 ≡ ok tt

module _ {W : Type 0} (os : Os W) (directory : String) where
  -- A command of which some path is absolute exits with the special code, and the state of the
  -- system is as it was.
  pub run-absolute :
      (cmd : Command) (w : W)
      → any is_absolute (paths cmd) ≡ true
      → run os directory cmd w ≡ (err (exit special_exit_code "Invalid path"), w)
  unfolding run
  run-absolute (chmod path mode) w h = check-absolute path _ w (single _ h)
  run-absolute (rename oldpath newpath) w h = elim (Bool-cases (is_absolute oldpath)) [
    | inl old ↦ rw old refl
    | inr old ↦ rw old (check-absolute newpath _ w (ground arith))
  ]
  run-absolute (mkdir path mode) w h = check-absolute path _ w (single _ h)
  run-absolute (create path mode) w h = check-absolute path _ w (single _ h)
  run-absolute (rm path) w h = check-absolute path _ w (single _ h)
  run-absolute (rmdir_recur path) w h = check-absolute path _ w (single _ h)

  entered :
      (m : Sys W (Unit {0})) (w : W)
      → (chroot_into os directory w).0 ≡ ok tt
      → ((w' : W) → IsReported (m w').0)
      → IsReported ((chroot_into os directory >> m) w).0
  entered m w h k = rw h (k (chroot_into os directory w).1)

  update_mode-IsMild : (path mode : String) (w : W) → IsMild (update_mode os path mode w).0
  unfolding update_mode
  update_mode-IsMild path mode w =
      continue-IsMild (raised_as (os.stat_mode path w).0) _ _
        (raised_as-IsMild (os.stat_mode path w).0)
        (λ old. moded-IsMild old (some mode) (os.chmod path) _)

  renamed :
      (oldpath newpath : String) (w : W)
      → IsReported
          ((if os.exists newpath w || os.islink newpath w
              then stop "File already exists"
              else reported (call (os.rename oldpath newpath)))
            w).0
  renamed oldpath newpath w = elim (Bool-cases (os.exists newpath w || os.islink newpath w)) [
    | inl there ↦ rw there refl
    | inr free ↦ rw free (
        reported-IsReported (call (os.rename oldpath newpath)) w
          (raised_as-IsMild (os.rename oldpath newpath w).0))
  ]

  -- Behind a mode that was refused or a file that was not opened nothing is closed.
  closed-IsReported :
      (closes : ClosesOpened os) (path : String) (mode : Option String) (w : W)
      → IsReported
          ((try_except (new_mode 0o666 mode >>= λ m. call (os.open_new path m)) on_os_error
              >>= λ fd. call (os.close fd))
            w).0
  unfolding new_mode on_os_error
  closed-IsReported closes path mode w = elim (Option-cases (get_new_mode 0o666 mode)) [
    | inl bad ↦ rw (bad, new_mode) refl
    | inr (m, good) ↦ elim (Result-cases (os.open_new path m w).0) [
      | inr (e, failed) ↦ rw (good, new_mode, failed) refl
      | inl (fd, made) ↦ rw (good, new_mode, made, closes path m fd w made) tt
    ]
  ]

  -- Where the helper runs as root and can enter the directory, and a file that has just been opened can be
  -- closed, a command ends well or exits with the code that marks its text as safe to show: no `OSError`
  -- leaves it.
  pub run-IsReported :
      (closes : ClosesOpened os) (cmd : Command) (w : W)
      → (chroot_into os directory w).0 ≡ ok tt
      → IsReported (run os directory cmd w).0
  unfolding run
  run-IsReported closes (chmod path mode) w h = guarded path _ w (
      entered _ w h
        (λ w'. reported-IsReported (update_mode os path mode) w' (update_mode-IsMild path mode w')))
  run-IsReported closes (rename oldpath newpath) w h =
      guarded oldpath _ w (guarded newpath _ w (entered _ w h (λ w'. renamed oldpath newpath w')))
  run-IsReported closes (mkdir path mode) w h = guarded path _ w (
      entered _ w h
        (λ w'. handled-IsReported _ _ (moded-IsMild 0o777 mode (λ m. os.makedirs path m false) w')))
  run-IsReported closes (create path mode) w h =
      guarded path _ w (entered _ w h (λ w'. closed-IsReported closes path mode w'))
  run-IsReported closes (rm path) w h = guarded path _ w (
      entered _ w h (λ w'.
        handled-IsReported _ _
          (tested-IsMild (os.exists path w' || os.islink path w') (os.remove path) w')))
  run-IsReported closes (rmdir_recur path) w h = guarded path _ w (
      entered _ w h
        (λ w'. handled-IsReported _ _ (tested-IsMild (os.isdir path w') (os.rmtree path) w')))
