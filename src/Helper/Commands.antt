-- ===== src/Helper/Commands.antt =====
-- orchestrator/helpers/files-helper.py: the commands that change the files of a site.
use Prim.Native.Char.{code}
use director.Prelude.{
  ℕ, String, Bool, true, false, not, ◌||◌, Option, none, some, List, [], ◌∷◌, eqb, if◌then◌else◌,
}
use director.Prelude.Exec.{Result, ok, err, Exec, pure, raise, gets, try_except, ◌>>=◌, ◌>>◌}
use director.Helper.Mode.{get_new_mode}

-- `sys.exit` with a code behind a text on stderr, and an `OSError` that nothing catches.
pub data Stop : Type 0 where
  exit : ℕ → String → Stop
  os_error : String → Stop

-- The functions of `os` and `shutil` that the commands call, over the state `W` of the system. A
-- call that raises an `OSError` gives its text. `open_new` is `os.open` with `O_RDWR | O_CREAT |
-- O_EXCL`, which gives the descriptor that `close` takes.
pub record Os (W : Type 0) : Type 0 where
  pub getuid : W → ℕ
  pub exists : String → W → Bool
  pub islink : String → W → Bool
  pub isdir : String → W → Bool
  pub chroot : String → Exec String W (Unit {0})
  pub chdir : String → Exec String W (Unit {0})
  pub stat_mode : String → Exec String W ℕ
  pub chmod : String → ℕ → Exec String W (Unit {0})
  pub rename : String → String → Exec String W (Unit {0})
  pub makedirs : String → ℕ → Bool → Exec String W (Unit {0})
  pub open_new : String → ℕ → Exec String W ℕ
  pub close : ℕ → Exec String W (Unit {0})
  pub remove : String → Exec String W (Unit {0})
  pub rmtree : String → Exec String W (Unit {0})

abbrev pub special_exit_code : ℕ
special_exit_code = 145

-- `relpath.startswith("/")`
abbrev pub is_absolute : String → Bool
is_absolute String.[] = false
is_absolute (String.◌∷◌ c s) = eqb (code c) b'/'

abbrev pub Sys : Type 0 → Type 0 → Type 0
Sys W A = Exec Stop W A

abbrev pub raised_as : {A : Type 0} → Result String A → Result Stop A
raised_as (ok a) = ok a
raised_as (err e) = err (os_error e)

module _ {W : Type 0} where
  abbrev pub call : {A : Type 0} → Exec String W A → Sys W A
  call m w = (raised_as (m w).0, (m w).1)

  abbrev pub stop : {A : Type 0} → String → Sys W A
  stop message = raise (exit special_exit_code message)

  -- `except OSError as ex`
  unfoldable pub on_os_error : {A : Type 0} → Stop → Sys W A
  on_os_error (os_error e) = stop e
  on_os_error (exit c message) = raise (exit c message)

  abbrev pub reported : Sys W (Unit {0}) → Sys W (Unit {0})
  reported m = try_except m on_os_error

  -- The test at the head of a command.
  abbrev pub check_relative : String → Sys W (Unit {0})
  check_relative path = if is_absolute path then stop "Invalid path" else pure tt

  -- The mode, or the exit of `get_new_mode`.
  unfoldable pub new_mode : ℕ → Option String → Sys W ℕ
  unfolding get_new_mode
  new_mode old mode_str = elim (get_new_mode old mode_str) [
    | none ↦ stop "Invalid mode string"
    | some m ↦ pure m
  ]

module _ {W : Type 0} (os : Os W) where
  unfoldable pub chroot_into : String → Sys W (Unit {0})
  chroot_into directory = do
    uid ← gets os.getuid
    if not (eqb uid 0)
        then stop "Please run this in a user namespace"
        else do call (os.chroot directory); call (os.chdir "/")

  unfoldable pub update_mode : String → String → Sys W (Unit {0})
  unfolding new_mode
  update_mode path mode_str = do
    old ← call (os.stat_mode path)
    mode ← new_mode old (some mode_str)
    call (os.chmod path mode)

  unfoldable pub chmod_cmd : String → String → String → Sys W (Unit {0})
  unfolding chroot_into update_mode on_os_error
  chmod_cmd directory path mode_str = do
    check_relative path
    chroot_into directory
    reported (update_mode path mode_str)

  -- `os.path.exists(path) or os.path.islink(path)`
  abbrev is_there : String → W → Bool
  is_there path w = os.exists path w || os.islink path w

  unfoldable pub rename_cmd : String → String → String → Sys W (Unit {0})
  unfolding chroot_into on_os_error
  rename_cmd directory oldpath newpath = do
    check_relative oldpath
    check_relative newpath
    chroot_into directory
    there ← gets (is_there newpath)
    if there then stop "File already exists" else reported (call (os.rename oldpath newpath))

  unfoldable pub mkdir_cmd : String → String → Option String → Sys W (Unit {0})
  unfolding chroot_into new_mode on_os_error
  mkdir_cmd directory path mode_str = do
    check_relative path
    chroot_into directory
    reported (do mode ← new_mode 0o777 mode_str; call (os.makedirs path mode false))

  -- The descriptor is closed in the `else:` clause, outside of the `try`.
  unfoldable pub create_cmd : String → String → Option String → Sys W (Unit {0})
  unfolding chroot_into new_mode on_os_error
  create_cmd directory path mode_str = do
    check_relative path
    chroot_into directory
    fd ← try_except (do mode ← new_mode 0o666 mode_str; call (os.open_new path mode)) on_os_error
    call (os.close fd)

  unfoldable pub rm_cmd : String → String → Sys W (Unit {0})
  unfolding chroot_into on_os_error
  rm_cmd directory path = do
    check_relative path
    chroot_into directory
    reported (do there ← gets (is_there path); if there then call (os.remove path) else pure tt)

  unfoldable pub rmdir_recur_cmd : String → String → Sys W (Unit {0})
  unfolding chroot_into on_os_error
  rmdir_recur_cmd directory path = do
    check_relative path
    chroot_into directory
    reported (do there ← gets (os.isdir path); if there then call (os.rmtree path) else pure tt)

  unfoldable pub make_all : List String → Sys W (Unit {0})
  make_all [] = pure tt
  make_all (d ∷ ds) = do call (os.makedirs d 0o777 true); make_all ds

  unfoldable pub ensure_directories_exist_cmd : String → Sys W (Unit {0})
  unfolding chroot_into make_all
  ensure_directories_exist_cmd directory = do
    chroot_into directory
    make_all ("/private" ∷ "/public" ∷ "/.home" ∷ [])

  unfoldable pub remove_all_site_files_dangerous_cmd : String → Sys W (Unit {0})
  unfolding on_os_error
  remove_all_site_files_dangerous_cmd directory = reported (call (os.rmtree directory))
