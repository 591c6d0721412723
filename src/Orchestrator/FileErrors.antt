-- ===== src/Orchestrator/FileErrors.antt =====
-- orchestrator/orchestrator/files.py and orchestrator/helpers/files-helper.py together: which errors the
-- functions that change files raise.
use director.Prelude.{ℕ, ◌≡◌, refl, ◌∙◌, String, Option, none, some, List, [], ◌∷◌}
use director.Prelude.Exec.{Result, ok, err}
use director.Helper.Commands.{Stop, exit, os_error, Os, chroot_into}
use director.Helper.Safety.{
  Command, run, chmod, rename, mkdir, create, rm, rmdir_recur, IsReported, ClosesOpened,
  run-IsReported,
}
use director.Orchestrator.Files.{
  SiteFilesException, user_viewable, hidden, not_started, get_site_directory_path, settle,
  run_helper, change,
}

-- It returned, or raised what the user may see.
abbrev pub IsViewable : Result SiteFilesException (Unit {0}) → Type 0
IsViewable (ok u) = Unit
IsViewable (err (user_viewable message)) = Unit
IsViewable (err (hidden message)) = ⊥
IsViewable (err (not_started message)) = ⊥

abbrev optional : Option String → List String
optional none = []
optional (some text) = text ∷ []

-- The arguments with which the helper is told a command: its name, the directory, and what the command takes.
abbrev pub arguments : String → Command → List String
arguments directory (chmod path mode) = "chmod" ∷ directory ∷ path ∷ mode ∷ []
arguments directory (rename oldpath newpath) = "rename" ∷ directory ∷ oldpath ∷ newpath ∷ []
arguments directory (mkdir path mode) = "mkdir" ∷ directory ∷ path ∷ optional mode
arguments directory (create path mode) = "create" ∷ directory ∷ path ∷ optional mode
arguments directory (rm path) = "rm" ∷ directory ∷ path ∷ []
arguments directory (rmdir_recur path) = "rmdir-recur" ∷ directory ∷ path ∷ []

module _ {W : Type 0} (os : Os W) (sites_directory : String) (repr traceback : String → String)
    (refuses : List String → W → Option String) where
  -- Each function that changes files asks for the helper with the command that it is meant for, the directory of
  -- the site and the paths that it was given. If the process cannot be started, the function raises that
  -- exception and nothing is changed; otherwise the helper runs that command in that directory on those
  -- paths, and the function raises what the end of the command says.
  pub change-run :
      (site_id : ℕ) (c : Command) (w : W)
      → change os sites_directory repr traceback refuses site_id c w
        ≡ elim (refuses (arguments (get_site_directory_path sites_directory site_id) c) w) [
          | some e ↦ some (err (not_started e), w)
          | none ↦ some (
              settle os sites_directory repr traceback refuses
                (run os (get_site_directory_path sites_directory site_id) c w))
        ]
  unfolding change run_helper
  change-run site_id (chmod path mode) w = refl
  change-run site_id (rename oldpath newpath) w = refl
  change-run site_id (mkdir path none) w = refl
  change-run site_id (mkdir path (some mode)) w = refl
  change-run site_id (create path none) w = refl
  change-run site_id (create path (some mode)) w = refl
  change-run site_id (rm path) w = refl
  change-run site_id (rmdir_recur path) w = refl

  settle-IsViewable :
      (r : Result Stop (Unit {0})) (w : W)
      → IsReported r
      → IsViewable (settle os sites_directory repr traceback refuses (r, w)).0
  unfolding settle
  settle-IsViewable (ok u) w h = tt
  settle-IsViewable (err (exit c message)) w h = rw h tt
  settle-IsViewable (err (os_error e)) w h = elim h [ ]

  -- Where the helper is started, runs as root, can enter the directory of the site and can close what it has
  -- just opened, each function that changes files comes to its end, and returns or raises an exception that
  -- the user may see: no other error is raised.
  pub change-IsViewable :
      (closes : ClosesOpened os) (site_id : ℕ) (c : Command) (w : W)
      → refuses (arguments (get_site_directory_path sites_directory site_id) c) w ≡ none
      → (chroot_into os (get_site_directory_path sites_directory site_id) w).0 ≡ ok tt
      → (r : Result SiteFilesException (Unit {0})) × (w' : W) × (change os sites_directory repr
            traceback refuses site_id c w
          ≡ some (r, w'))
        × IsViewable r
  change-IsViewable closes site_id c w started h =
      let directory = get_site_directory_path sites_directory site_id in
      let end = settle os sites_directory repr traceback refuses (run os directory c w) in
      (
        end.0,
        end.1,
        change-run site_id c w ∙ (rw started refl),
        settle-IsViewable _ _ (run-IsReported os directory closes c w h),
      )
