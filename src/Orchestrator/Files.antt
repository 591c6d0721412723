-- ===== src/Orchestrator/Files.antt =====
-- orchestrator/orchestrator/files.py: what the orchestrator has the helper do to the files of a site.
use Prim.Native.Char.{code}
use director.Prelude.{
  ℕ, ◌/◌, ◌%◌, String, Bool, true, false, ◌&&◌, ◌||◌, Option, none, some, List, [], ◌∷◌, ◌++◌, eqb,
  leb, ltb, any, if◌then◌else◌,
}
use director.Prelude.Text.{◌⊕◌, str}
use director.Prelude.Exec.{Result, ok, err}
use director.Helper.Commands.{
  Stop, exit, os_error, Os, Sys, special_exit_code, is_absolute, ensure_directories_exist_cmd,
  remove_all_site_files_dangerous_cmd,
}
use director.Helper.Safety.{Command, run, chmod, rename, mkdir, create, rm, rmdir_recur}
use director.Helper.Main.{
  Invocation, on_path, ensure_directories_exist, remove_all_site_files_dangerous, usage, type_error,
  main,
}

-- `not_started` is no class of the module: it is whatever Python raises where the helper cannot be started,
-- a `ValueError` for a NUL character in an argument or an `OSError`.
pub data SiteFilesException : Type 0 where
  user_viewable hidden not_started : String → SiteFilesException

-- `str.isspace` of one character.
abbrev is_space : ℕ → Bool
is_space c =
    leb 9 c && leb c 13
    || (leb 28 c && leb c 32)
    || leb 8192 c && leb c 8202
    || any (eqb c) (133 ∷ 160 ∷ 5760 ∷ 8232 ∷ 8233 ∷ 8239 ∷ 8287 ∷ 12288 ∷ [])

abbrev lstrip : String → String
lstrip String.[] = ""
lstrip (String.◌∷◌ c s) = let rest = lstrip s in if is_space (code c) then rest else String.◌∷◌ c s

abbrev pub is_empty : String → Bool
is_empty String.[] = true
is_empty (String.◌∷◌ c s) = false

abbrev rstrip : String → String
rstrip String.[] = ""
rstrip (String.◌∷◌ c s) =
    let rest = rstrip s in if is_empty rest && is_space (code c) then "" else String.◌∷◌ c rest

-- `str.strip`
abbrev pub strip : String → String
strip s = lstrip (rstrip s)

unfoldable pub raise_for_process_result : ℕ → String → Result SiteFilesException (Unit {0})
raise_for_process_result returncode stderr =
    if eqb returncode 0
    then ok tt
    else if eqb returncode special_exit_code
    then err (user_viewable (strip stderr))
    else err (hidden (strip stderr))

abbrev pub ends_with_slash : String → Bool
ends_with_slash String.[] = false
ends_with_slash (String.◌∷◌ c s) = if is_empty s then eqb (code c) b'/' else ends_with_slash s

-- `os.path.join` of two paths.
abbrev pub join_path : String → String → String
join_path a b =
    if is_absolute b then b else if is_empty a || ends_with_slash a then a ⊕ b else a ⊕ "/" ⊕ b

-- `"{:02d}".format(n)`
abbrev pub two_digits : ℕ → String
two_digits n = if ltb n 10 then "0" ⊕ str n else str n

-- The first argument is the setting `SITES_DIRECTORY`.
unfoldable pub get_site_directory_path : String → ℕ → String
get_site_directory_path sites_directory site_id =
    join_path (join_path sites_directory (two_digits (site_id / 100))) (two_digits (site_id % 100))

-- What is left of a process: the code it returned, and its stderr. An exception that nothing catches ends
-- Python with code 1 behind its `traceback`.
abbrev pub exit_status : (traceback : String → String) → Result Stop (Unit {0}) → ℕ × String
exit_status traceback (ok u) = (0, "")
exit_status traceback (err (exit c message)) = (c, message ⊕ "\n")
exit_status traceback (err (os_error e)) = (1, traceback e)

abbrev arguments_with : List String → Option String → List String
arguments_with args none = args
arguments_with args (some mode) = args ++ mode ∷ []

-- The setting, the texts that Python itself makes, and the exception with which `subprocess.Popen` does not
-- start the helper for these arguments, if it raises one.
module _ {W : Type 0} (os : Os W) (sites_directory : String) (repr traceback : String → String)
    (refuses : List String → W → Option String) where
  -- The commands whose only answer is how they end; none for the others.
  unfoldable pub perform : Invocation → Option (Sys W (Unit {0}))
  perform (on_path directory command) = some (run os directory command)
  perform (ensure_directories_exist directory) = some (ensure_directories_exist_cmd os directory)
  perform (remove_all_site_files_dangerous directory) =
      some (remove_all_site_files_dangerous_cmd os directory)
  perform other = none

  -- What the orchestrator makes of the process when it has ended.
  unfoldable pub settle : Result Stop (Unit {0}) × W → Result SiteFilesException (Unit {0}) × W
  unfolding raise_for_process_result
  settle (r, w) =
      let (returncode, stderr) = exit_status traceback r in
      (raise_for_process_result returncode stderr, w)

  abbrev pub Outcome : Type 0
  Outcome = Option (Result SiteFilesException (Unit {0}) × W)

  -- `run_helper_script_prog`, `communicate` and `raise_for_process_result`.
  unfoldable pub run_helper : List String → W → Outcome
  unfolding main perform settle
  run_helper args w = elim (refuses args w) [
    | some e ↦ some (err (not_started e), w)
    | none ↦ elim (main repr args) [
      | err (usage message) ↦ some (settle (err (exit special_exit_code message), w))
      | err type_error ↦ some (settle (err (os_error "TypeError"), w))
      | ok invocation ↦ elim (perform invocation) [ none ↦ none | some m ↦ some (settle (m w)) ]
    ]
  ]

  unfoldable pub create_site_file : ℕ → String → Option String → W → Outcome
  unfolding run_helper get_site_directory_path
  create_site_file site_id relpath mode_str = run_helper (
      arguments_with ("create" ∷ get_site_directory_path sites_directory site_id ∷ relpath ∷ [])
        mode_str)

  unfoldable pub remove_all_site_files_dangerous_of : ℕ → W → Outcome
  unfolding run_helper get_site_directory_path
  remove_all_site_files_dangerous_of site_id =
      run_helper
        ("remove-all-site-files-dangerous" ∷ get_site_directory_path sites_directory site_id ∷ [])

  unfoldable pub remove_site_file : ℕ → String → W → Outcome
  unfolding run_helper get_site_directory_path
  remove_site_file site_id relpath =
      run_helper ("rm" ∷ get_site_directory_path sites_directory site_id ∷ relpath ∷ [])

  unfoldable pub remove_site_directory_recur : ℕ → String → W → Outcome
  unfolding run_helper get_site_directory_path
  remove_site_directory_recur site_id relpath =
      run_helper ("rmdir-recur" ∷ get_site_directory_path sites_directory site_id ∷ relpath ∷ [])

  unfoldable pub make_site_directory : ℕ → String → Option String → W → Outcome
  unfolding run_helper get_site_directory_path
  make_site_directory site_id relpath mode_str = run_helper (
      arguments_with ("mkdir" ∷ get_site_directory_path sites_directory site_id ∷ relpath ∷ [])
        mode_str)

  unfoldable pub rename_path : ℕ → String → String → W → Outcome
  unfolding run_helper get_site_directory_path
  rename_path site_id oldpath newpath =
      run_helper
        ("rename" ∷ get_site_directory_path sites_directory site_id ∷ oldpath ∷ newpath ∷ [])

  unfoldable pub chmod_path : ℕ → String → String → W → Outcome
  unfolding run_helper get_site_directory_path
  chmod_path site_id relpath mode_str =
      run_helper
        ("chmod" ∷ get_site_directory_path sites_directory site_id ∷ relpath ∷ mode_str ∷ [])

  -- The function that changes the files of a site as a command of the helper does.
  unfoldable pub change : ℕ → Command → W → Outcome
  unfolding chmod_path rename_path make_site_directory create_site_file remove_site_file
      remove_site_directory_recur
  change site_id (chmod path mode) = chmod_path site_id path mode
  change site_id (rename oldpath newpath) = rename_path site_id oldpath newpath
  change site_id (mkdir path mode) = make_site_directory site_id path mode
  change site_id (create path mode) = create_site_file site_id path mode
  change site_id (rm path) = remove_site_file site_id path
  change site_id (rmdir_recur path) = remove_site_directory_recur site_id path
