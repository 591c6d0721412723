-- ===== src/Orchestrator/FilePages.antt =====
-- orchestrator/orchestrator/views/files.py: the pages that change the files of a site, down to the
-- commands of the helper.
use director.Prelude.{
  ℕ, ◌≡◌, refl, ap, ◌∙◌, String, Option, none, some, List, Option-cases, ◌⊎◌, inl, inr,
}
use director.Prelude.Text.{◌⊕◌}
use director.Prelude.Exec.{Result, ok, err}
use director.Helper.Commands.{Stop, exit, os_error, Os, chroot_into, special_exit_code}
use director.Helper.Safety.{
  Command, run, chmod, rename, mkdir, create, rm, rmdir_recur, IsReported, ClosesOpened,
  run-IsReported,
}
use director.Orchestrator.Files.{
  SiteFilesException, user_viewable, hidden, not_started, get_site_directory_path, strip, settle,
  change, Outcome, chmod_path, rename_path, make_site_directory, create_site_file, remove_site_file,
  remove_site_directory_recur,
}
use director.Orchestrator.FileErrors.{arguments, change-run}

-- "Success", or a text with a status.
pub data Answer : Type 0 where
  success : Answer
  refused : (text : String) (status : ℕ) → Answer

-- `request.args`
abbrev pub Query : Type 0
Query = String → Option String

-- What the exceptions of a page become.
unfoldable pub answer_of : Result SiteFilesException (Unit {0}) → Answer
answer_of (ok u) = success
answer_of (err (user_viewable message)) = refused message 500
answer_of (err (hidden message)) = refused "Internal error" 500
answer_of (err (not_started message)) = refused "Internal error" 500

-- `request.args.get(name, "")`
abbrev or_empty : Option String → String
or_empty none = ""
or_empty (some text) = text

pub data FilePage : Type 0 where
  create_file_page remove_file_page make_directory_page chmod_page rename_page : FilePage
  remove_directory_recur_page : FilePage

module _ {W : Type 0} (os : Os W) (sites_directory : String) (repr traceback : String → String)
    (refuses : List String → W → Option String) where
  abbrev pub Sent : Type 0
  Sent = Option (Answer × W)

  -- The answer for how a function of files.py ends.
  unfoldable pub respond : Outcome os sites_directory repr traceback refuses → Sent
  unfolding answer_of
  respond none = none
  respond (some (r, w)) = some (answer_of r, w)

  -- A parameter that has to be there.
  abbrev with_parameter : Option String → (text : String) → W → (String → Sent) → Sent
  with_parameter none text w page = some (refused text 400, w)
  with_parameter (some value) text w page = page value

  unfoldable pub serve : FilePage → ℕ → Query → W → Sent
  unfolding respond
  serve create_file_page site_id query w =
      with_parameter (query "path") "path parameter not passed" w (λ path.
        respond (
          create_site_file os sites_directory repr traceback refuses site_id path (query "mode") w))
  serve remove_file_page site_id query w =
      with_parameter (query "path") "path parameter not passed" w (λ path.
        respond (remove_site_file os sites_directory repr traceback refuses site_id path w))
  serve make_directory_page site_id query w =
      with_parameter (query "path") "path parameter not passed" w (λ path. respond (
        make_site_directory os sites_directory repr traceback refuses site_id path
          (some (or_empty (query "mode"))) w))
  serve chmod_page site_id query w =
      with_parameter (query "path") "path parameter not passed" w (λ path.
        with_parameter (query "mode") "mode parameter not passed" w (λ mode.
          respond (chmod_path os sites_directory repr traceback refuses site_id path mode w)))
  serve rename_page site_id query w =
      with_parameter (query "oldpath") "oldpath parameter not passed" w (λ oldpath.
        with_parameter (query "newpath") "newath parameter not passed" w (λ newpath.
          respond
            (rename_path os sites_directory repr traceback refuses site_id oldpath newpath w)))
  serve remove_directory_recur_page site_id query w =
      with_parameter (query "path") "path parameter not passed" w (λ path.
        respond
          (remove_site_directory_recur os sites_directory repr traceback refuses site_id path w))

  -- What a page shall have the helper do, where its parameters are given.
  abbrev with_given : Option String → (String → Option Command) → Option Command
  with_given none f = none
  with_given (some value) f = f value

  unfoldable pub command_of : FilePage → Query → Option Command
  command_of create_file_page query =
      with_given (query "path") (λ path. some (create path (query "mode")))
  command_of remove_file_page query = with_given (query "path") (λ path. some (rm path))
  command_of make_directory_page query =
      with_given (query "path") (λ path. some (mkdir path (some (or_empty (query "mode")))))
  command_of chmod_page query =
      with_given (query "path") (λ path. with_given (query "mode") (λ mode. some (chmod path mode)))
  command_of rename_page query =
      with_given (query "oldpath")
        (λ old. with_given (query "newpath") (λ new. some (rename old new)))
  command_of remove_directory_recur_page query =
      with_given (query "path") (λ path. some (rmdir_recur path))

  -- The answer that the end of the command calls for.
  abbrev pub IsFor : Result Stop (Unit {0}) → Answer → Type 0
  IsFor (ok u) answer = answer ≡ success
  IsFor (err (exit code message)) answer =
      (code ≡ special_exit_code) × (answer ≡ refused (strip (message ⊕ "\n")) 500)
  IsFor (err (os_error e)) answer = ⊥

  -- The helper is asked for with this command.
  abbrev pub IsAsked : ℕ → Command → W → Sent → Type 0
  IsAsked site_id c w sent =
      let directory = get_site_directory_path sites_directory site_id in
      ((e : String) × (refuses (arguments directory c) w ≡ some e)
        × (sent ≡ some (refused "Internal error" 500, w)))
      ⊎ ((refuses (arguments directory c) w ≡ none)
          × ((answer : Answer) × IsFor (run os directory c w).0 answer
              × (sent ≡ some (answer, (run os directory c w).1))))

  -- A page that lacks a parameter changes nothing; another asks for its command.
  abbrev pub IsServed : FilePage → ℕ → Query → W → Sent → Type 0
  IsServed page site_id query w sent =
      ((command_of page query ≡ none) × ((text : String) × (sent ≡ some (refused text 400, w))))
      ⊎ ((c : Command) × (command_of page query ≡ some c) × IsAsked site_id c w sent)

  settle-IsFor :
      (r : Result Stop (Unit {0})) (w : W)
      → IsReported r
      → IsFor r (answer_of (settle os sites_directory repr traceback refuses (r, w)).0)
        × ((settle os sites_directory repr traceback refuses (r, w)).1 ≡ w)
  unfolding settle answer_of
  settle-IsFor (ok u) w h = (refl, refl)
  settle-IsFor (err (exit code message)) w h = ((h, rw h refl), refl)
  settle-IsFor (err (os_error e)) w h = elim h [ ]

  respond-change :
      (closes : ClosesOpened os) (site_id : ℕ) (c : Command) (w : W)
      → (chroot_into os (get_site_directory_path sites_directory site_id) w).0 ≡ ok tt
      → IsAsked site_id c w (respond (change os sites_directory repr traceback refuses site_id c w))
  unfolding respond answer_of
  respond-change closes site_id c w h =
      let directory = get_site_directory_path sites_directory site_id in
      let changed = change-run os sites_directory repr traceback refuses site_id c w in
      let end = run os directory c w in
      let (for, kept) = settle-IsFor end.0 end.1 (run-IsReported os directory closes c w h) in
      elim (Option-cases (refuses (arguments directory c) w)) [
        | inr (e, stopped) ↦
            let raised : change os sites_directory repr traceback refuses site_id c w
                ≡ some (err (not_started e), w) =
              rw stopped at changed in
            inl (e, stopped, ap respond raised)
        | inl started ↦
            let ran : change os sites_directory repr traceback refuses site_id c w
                ≡ some (settle os sites_directory repr traceback refuses end) =
              rw started at changed in
            inr (
              started,
              (
                answer_of (settle os sites_directory repr traceback refuses end).0,
                for,
                ap respond ran
                    ∙ ap
                        (λ x.
                          some
                            (answer_of (settle os sites_directory repr traceback refuses end).0, x))
                        kept,
              ),
            )
      ]

  module _ (closes : ClosesOpened os) (site_id : ℕ) (query : Query) (w : W)
      (entered : (chroot_into os (get_site_directory_path sites_directory site_id) w).0
        ≡ ok tt) where
    -- One parameter that has to be there.
    one_parameter :
        (page : FilePage) (name : String) (c : String → Command)
        → ((o : Option String)
            → query name ≡ o
            → (command_of page query ≡ with_given o (λ v. some (c v)))
              × (serve page site_id query w
                  ≡ with_parameter o (name ⊕ " parameter not passed") w (λ v.
                    respond (change os sites_directory repr traceback refuses site_id (c v) w))))
        → IsServed page site_id query w (serve page site_id query w)
    one_parameter page name c shape = go (query name) refl
      where
        go :
            (o : Option String)
            → query name ≡ o
            → IsServed page site_id query w (serve page site_id query w)
        go none e = let (f, g) = shape none e in inl (f, (name ⊕ " parameter not passed", g))
        go (some v) e =
            let (f, g) = shape (some v) e in
            inr (c v, f, rw g (respond-change closes site_id (c v) w entered))

    -- Two of them.
    two_parameters :
        (page : FilePage) (name name' text : String) (c : String → String → Command)
        → ((o o' : Option String)
            → query name ≡ o
            → query name' ≡ o'
            → (command_of page query ≡ with_given o (λ v. with_given o' (λ v'. some (c v v'))))
              × (serve page site_id query w
                  ≡ with_parameter o (name ⊕ " parameter not passed") w (λ v.
                    with_parameter o' text w (λ v'.
                      respond
                        (change os sites_directory repr traceback refuses site_id (c v v') w)))))
        → IsServed page site_id query w (serve page site_id query w)
    two_parameters page name name' text c shape = go (query name) (query name') refl refl
      where
        go :
            (o o' : Option String)
            → query name ≡ o
            → query name' ≡ o'
            → IsServed page site_id query w (serve page site_id query w)
        go none o' e e' =
            let (f, g) = shape none o' e e' in inl (f, (name ⊕ " parameter not passed", g))
        go (some v) none e e' = let (f, g) = shape (some v) none e e' in inl (f, (text, g))
        go (some v) (some v') e e' =
            let (f, g) = shape (some v) (some v') e e' in
            inr (c v v', f, rw g (respond-change closes site_id (c v v') w entered))

    -- Where the helper runs as root, can enter the directory of the site and can close what it has just
    -- opened: a page that lacks a parameter answers with status 400 and changes nothing. Another asks for
    -- the helper with its command. If the process cannot be started, the page answers "Internal error"
    -- with status 500 and nothing is changed; otherwise the helper runs the command in that directory, and
    -- the page answers "Success" where the command ends well, and otherwise, with status 500, the text
    -- that the command wrote.
    pub serve-IsServed :
        (page : FilePage) → IsServed page site_id query w (serve page site_id query w)
    unfolding command_of serve change
    serve-IsServed create_file_page =
        one_parameter create_file_page "path" (λ path. create path (query "mode"))
          (λ o e. (rw (e, command_of) refl, rw (e, serve) refl))
    serve-IsServed remove_file_page =
        one_parameter remove_file_page "path" (λ path. rm path)
          (λ o e. (rw (e, command_of) refl, rw (e, serve) refl))
    serve-IsServed make_directory_page =
        one_parameter make_directory_page "path"
          (λ path. mkdir path (some (or_empty (query "mode"))))
          (λ o e. (rw (e, command_of) refl, rw (e, serve) refl))
    serve-IsServed chmod_page =
        two_parameters chmod_page "path" "mode" "mode parameter not passed"
          (λ path mode. chmod path mode)
          (λ o o' e e'. (rw (e, e', command_of) refl, rw (e, e', serve) refl))
    serve-IsServed rename_page =
        two_parameters rename_page "oldpath" "newpath" "newath parameter not passed"
          (λ old new. rename old new)
          (λ o o' e e'. (rw (e, e', command_of) refl, rw (e, e', serve) refl))
    serve-IsServed remove_directory_recur_page =
        one_parameter remove_directory_recur_page "path" (λ path. rmdir_recur path)
          (λ o e. (rw (e, command_of) refl, rw (e, serve) refl))
