-- ===== src/Helper/Main.antt =====
-- orchestrator/helpers/files-helper.py, `main`: which command a list of arguments runs. The umask and the limit of
-- the memory, which `main` sets before it looks at the name of the command, are left out, and with them
-- the assertion on ORCHESTRATOR_HELPER_UMASK, which the orchestrator sets to a text that passes it.
use director.Prelude.{
  ℕ, String, Option, none, some, List, [], ◌∷◌, ◌==◌, eqb, length, any, if◌then◌else◌,
}
use director.Prelude.Text.{◌⊕◌}
use director.Prelude.Exec.{Result, ok, err}
use director.Helper.Safety.{Command, chmod, rename, mkdir, create, rm, rmdir_recur}

-- A call of the function of a command, with its arguments.
pub data Invocation : Type 0 where
  on_path : (directory : String) → Command → Invocation
  ensure_directories_exist monitor remove_all_site_files_dangerous :
      (directory : String) → Invocation
  ls : (directory path : String) → Invocation
  get : (directory path max_size : String) → Invocation
  write : (directory path : String) (mode : Option String) → Invocation
  download_zip : (directory path max_size max_files : String) → Invocation

-- An exit with the special code and its text, and the `TypeError` of a call with the wrong number of arguments.
pub data Failure : Type 0 where
  usage : String → Failure
  type_error : Failure

-- The parameters of the functions.
abbrev pub one : (String → Invocation) → List String → Option Invocation
one f (d ∷ []) = some (f d)
one f _ = none

abbrev pub two : (String → String → Invocation) → List String → Option Invocation
two f (d ∷ a ∷ []) = some (f d a)
two f _ = none

abbrev pub two_or_three :
    (String → String → Option String → Invocation) → List String → Option Invocation
two_or_three f (d ∷ a ∷ []) = some (f d a none)
two_or_three f (d ∷ a ∷ b ∷ []) = some (f d a (some b))
two_or_three f _ = none

abbrev pub three : (String → String → String → Invocation) → List String → Option Invocation
three f (d ∷ a ∷ b ∷ []) = some (f d a b)
three f _ = none

abbrev pub four : (String → String → String → String → Invocation) → List String → Option Invocation
four f (d ∷ a ∷ b ∷ c ∷ []) = some (f d a b c)
four f _ = none

pub record Entry : Type 0 where
  pub name : String
  pub call : List String → Option Invocation
  pub counts : List ℕ

abbrev entry : String → (List String → Option Invocation) → List ℕ → Entry
entry name call counts = record { name = name; call = call; counts = counts }

abbrev pub commands : List Entry
commands =
    entry "ensure-directories-exist" (one ensure_directories_exist) (1 ∷ [])
    ∷ entry "ls" (two ls) (2 ∷ [])
    ∷ entry "get" (three get) (3 ∷ [])
    ∷ entry "write" (two_or_three write) (2 ∷ 3 ∷ [])
    ∷ entry "monitor" (one monitor) (1 ∷ [])
    ∷ entry "remove-all-site-files-dangerous" (one remove_all_site_files_dangerous) (1 ∷ [])
    ∷ entry "rm" (two (λ d a. on_path d (rm a))) (2 ∷ [])
    ∷ entry "rmdir-recur" (two (λ d a. on_path d (rmdir_recur a))) (2 ∷ [])
    ∷ entry "mkdir" (two_or_three (λ d a m. on_path d (mkdir a m))) (2 ∷ 3 ∷ [])
    ∷ entry "chmod" (three (λ d a m. on_path d (chmod a m))) (3 ∷ [])
    ∷ entry "rename" (three (λ d a b. on_path d (rename a b))) (3 ∷ [])
    ∷ entry "create" (two_or_three (λ d a m. on_path d (create a m))) (2 ∷ 3 ∷ [])
    ∷ entry "download-zip" (four download_zip) (4 ∷ [])
    ∷ []

abbrev pub find : String → List Entry → Option Entry
find name [] = none
find name (e ∷ es) = if e.name == name then some e else find name es

-- `cmd_func(*args)`
abbrev pub called : Option Invocation → Result Failure Invocation
called none = err type_error
called (some invocation) = ok invocation

-- What the table says of a name; `repr` is Python's.
abbrev pub run_entry :
    (repr : String → String) → String → List String → Option Entry → Result Failure Invocation
run_entry repr name args none = err (usage ("Unknown command " ⊕ repr name))
run_entry repr name args (some e) =
    if any (eqb (length args)) e.counts
    then called (e.call args)
    else err (usage ("Invalid number of arguments to command " ⊕ repr name))

-- The arguments behind the name of the program.
unfoldable pub main : (repr : String → String) → List String → Result Failure Invocation
main repr [] = err (usage "Please specify a command")
main repr (name ∷ args) = run_entry repr name args (find name commands)
