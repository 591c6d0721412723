-- ===== src/Helper/Tests.antt =====
-- Runs of orchestrator/helpers/files-helper.py and the theorems at concrete inputs.
use director.Prelude.{◌<◌, ◌≡◌, refl, String, false, none, some, List, [], ◌∷◌, ◌==◌, arith}
use director.Prelude.Exec.{ok, err}
use director.Helper.Mode.{get_new_mode}
use director.Helper.Modes.{get_new_mode-bound}
use director.Helper.Commands.{Os, exit, os_error, chroot_into}
use director.Helper.Safety.{rename, mkdir, create, run, IsReported, run-absolute, run-IsReported}

-- A system that writes its calls down, in which only "a" exists and nothing can be renamed.
abbrev os : Os (List String)
os = record {
  getuid = λ w. 0;
  exists = λ path w. path == "a";
  islink = λ path w. false;
  isdir = λ path w. false;
  chroot = λ path w. (ok tt, "chroot" ∷ w);
  chdir = λ path w. (ok tt, "chdir" ∷ w);
  stat_mode = λ path w. (ok 0o100644, w);
  chmod = λ path mode w. (ok tt, "chmod" ∷ w);
  rename = λ old new w. (err "denied", "rename" ∷ w);
  makedirs = λ path mode exist_ok w. (ok tt, "makedirs" ∷ w);
  open_new = λ path mode w. (ok 3, ("open" ∷ w));
  close = λ fd w. (ok tt, w);
  remove = λ path w. (ok tt, "remove" ∷ w);
  rmtree = λ path w. (ok tt, "rmtree" ∷ w);
}

octal : get_new_mode 0o777 (some "4755") ≡ some 0o755
unfolding get_new_mode
octal = refl

removed : get_new_mode 0o666 (some "-rx") ≡ some 0o222
unfolding get_new_mode
removed = refl

-- All three letters after a sign are refused.
all_letters : get_new_mode 0o666 (some "+rwx") ≡ none
unfolding get_new_mode
all_letters = refl

denied :
    run os "/site" (rename "b" "c") []
    ≡ (err (exit 145 "denied"), "rename" ∷ "chdir" ∷ "chroot" ∷ [])
unfolding run
denied = refl

-- An existing file is not overwritten.
taken :
    run os "/site" (rename "b" "a") []
    ≡ (err (exit 145 "File already exists"), "chdir" ∷ "chroot" ∷ [])
unfolding run
taken = refl

-- A system on which a descriptor cannot be closed.
abbrev full_os : Os (List String)
full_os = record os { close = λ fd w. (err "No space left on device", w) }

-- The error of `os.close` is not reported as the others are.
unreported : (run full_os "/site" (create "b" none) []).0 ≡ err (os_error "No space left on device")
unfolding run
unreported = refl

entered_os : (chroot_into os "/site" []).0 ≡ ok tt
unfolding chroot_into
entered_os = refl

get_new_mode-bound_example : 0o755 < 512
get_new_mode-bound_example = get_new_mode-bound 0o777 (some "4755") 0o755 (omega arith) octal

run-absolute_example : run os "/site" (rename "b" "/etc") [] ≡ (err (exit 145 "Invalid path"), [])
run-absolute_example = run-absolute os "/site" (rename "b" "/etc") [] refl

run-IsReported_example : IsReported (run os "/site" (mkdir "b" (some "+rwx")) []).0
run-IsReported_example =
    run-IsReported os "/site" (λ path mode fd w e. refl) (mkdir "b" (some "+rwx")) [] entered_os
