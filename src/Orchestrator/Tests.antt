-- ===== src/Orchestrator/Tests.antt =====
-- Runs of the model of orchestrator/orchestrator/files.py, and its properties at concrete inputs.
use director.Prelude.{
  Bytes, ◌⊎◌, ◌≤◌, ◌<◌, append-nil, Option, if◌then◌else◌, ◌==◌, ℕ, ◌+◌, ◌≡◌, ◌≢◌, refl, String,
  false, none, some, List, [], ◌∷◌,
}
use director.Prelude.Text.{◌⊕◌, str}
use director.Prelude.Exec.{ok, err}
use director.Helper.Commands.{Os, chroot_into}
use director.Helper.Safety.{rename, mkdir, run}
use director.Helper.Main.{main, type_error, on_path, usage}
use director.Helper.Dispatch.{main-type_error}
use director.Orchestrator.Files.{not_started, settle, get_site_directory_path, change}
use director.Orchestrator.Directories.{get_site_directory_path-injective}
use director.Orchestrator.FileErrors.{change-run}
use director.Orchestrator.Download.{
  File, get_cmd, stream_site_file, page_of, body, refused, get_file_page, get_file_page-whole,
}
use director.Orchestrator.FilePages.{Answer, make_directory_page, serve, IsServed, serve-IsServed}

-- A system that writes its calls down, and in which nothing can be renamed.
abbrev os : Os (List String)
os = record {
  getuid = λ w. 0;
  exists = λ path w. false;
  islink = λ path w. false;
  isdir = λ path w. false;
  chroot = λ path w. (ok tt, ("chroot " ⊕ path) ∷ w);
  chdir = λ path w. (ok tt, w);
  stat_mode = λ path w. (ok 0o644, w);
  chmod = λ path mode w. (ok tt, w);
  rename = λ old new w. (err "denied", w);
  makedirs = λ path mode exist_ok w. (ok tt, ("mkdir " ⊕ path) ∷ w);
  open_new = λ path mode w. (ok 3, w);
  close = λ fd w. (ok tt, w);
  remove = λ path w. (ok tt, w);
  rmtree = λ path w. (ok tt, w);
}

abbrev quoted : String → String
quoted s = "'" ⊕ s ⊕ "'"

-- Every process starts.
abbrev starts : List String → List String → Option String
starts args w = none

-- None does.
abbrev fails : List String → List String → Option String
fails args w = some "embedded null byte"

not_started_test :
    (serve os "/s" quoted quoted fails make_directory_page 7 (λ name. some "a") []
      ≡ some (Answer.refused "Internal error" 500, []))
    × (change os "/s" quoted quoted fails 7 (mkdir "a" none) []
        ≡ some (err (not_started "embedded null byte"), []))
unfolding serve change
not_started_test = (refl, refl)

directory_test : get_site_directory_path "/data/sites" 1205 ≡ "/data/sites/12/05"
unfolding get_site_directory_path str
directory_test = refl

main_test : main quoted ("rename" ∷ "/d" ∷ "a" ∷ "b" ∷ []) ≡ ok (on_path "/d" (rename "a" "b"))
unfolding main
main_test = refl

unknown_test : main quoted ("mv" ∷ []) ≡ err (usage "Unknown command 'mv'")
unfolding main
unknown_test = refl

main-type_error_example : main quoted ("get" ∷ "/d" ∷ []) ≢ err type_error
main-type_error_example = main-type_error quoted ("get" ∷ "/d" ∷ [])

change-run_example :
    change os "/s" quoted quoted starts 7 (mkdir "a" none) []
    ≡ some (
        settle os "/s" quoted quoted starts
          (run os (get_site_directory_path "/s" 7) (mkdir "a" none) []))
change-run_example = change-run os "/s" quoted quoted starts 7 (mkdir "a" none) []

abbrev query : String → Option String
query name = if name == "path" then some "a" else none

serve-IsServed_example :
    IsServed os "/s" quoted quoted starts make_directory_page 7 query []
      (serve os "/s" quoted quoted starts make_directory_page 7 query [])
unfolding chroot_into
serve-IsServed_example =
    serve-IsServed os "/s" quoted quoted starts (λ path mode fd w e. refl) 7 query [] refl
      make_directory_page

-- The two texts are the same one, computed.
get_site_directory_path-injective_example : ◌≡◌ {A = ℕ} 1207 (1200 + 7)
unfolding get_site_directory_path
get_site_directory_path-injective_example =
    get_site_directory_path-injective "/data" 1207 (1200 + 7) refl

abbrev whole : Bytes → List Bytes
whole bytes = bytes ∷ []

abbrev three_bytes : String → File
three_bytes path = record { size = ok 3; opened = ok (1 ∷ 2 ∷ 3 ∷ [], none) }

-- An error in the middle of a file: what was read is sent, and the page does not tell.
broken_test :
    get_file_page whole 5
      (λ path. record { size = ok 3; opened = ok (1 ∷ 2 ∷ [], some "I/O error") })
      (some "a")
    ≡ body (1 ∷ 2 ∷ [])
unfolding get_file_page stream_site_file get_cmd page_of
broken_test = refl

get_file_page-whole_example :
    ((3 ≤ 5) × (get_file_page whole 5 three_bytes (some "a") ≡ body (1 ∷ 2 ∷ 3 ∷ [])))
    ⊎ ((5 < 3) × (get_file_page whole 5 three_bytes (some "a") ≡ refused "File too large" 400))
get_file_page-whole_example =
    get_file_page-whole whole (λ bytes. append-nil bytes) 5 three_bytes "a" (1 ∷ 2 ∷ 3 ∷ []) refl
      refl refl
