-- ===== src/Orchestrator/Download.antt =====
-- The download of a file: `get_file_page` of orchestrator/orchestrator/views/files.py, over
-- `stream_site_file` of orchestrator/orchestrator/files.py, over `get_cmd` of
-- orchestrator/helpers/files-helper.py, in a directory that the helper has entered. What a process
-- prints is kept as its lines, and a line has no newline of its own; the limit is a number, as the
-- orchestrator sends it.
use director.Prelude.{
  ℕ, ◌≤◌, ◌<◌, ◌≡◌, refl, sym, ap, ◌∙◌, String, Bool, true, false, Option, none, some, List, [],
  ◌∷◌, ◌++◌, Bytes, length, ltb, ltb→lt, ◌==◌, if◌then◌else◌, Bool-cases, inl, inr, arith, ◌⊎◌,
}
use director.Prelude.Text.{◌⊕◌}
use director.Prelude.Exec.{Result, ok, err}
use director.Helper.Commands.{is_absolute, special_exit_code}
use director.Orchestrator.Files.{
  SiteFilesException, user_viewable, hidden, not_started, strip, raise_for_process_result,
}

-- A path as the helper finds it: the size, what is read, and the error that ends the reading.
pub record File : Type 0 where
  pub size : Result String ℕ
  pub opened : Result String (Bytes × Option String)

-- A process that has ended.
pub record Process : Type 0 where
  pub stderr : List String
  pub stdout : Bytes
  pub returncode : ℕ

abbrev fails : String → Process
fails message = record { stderr = message ∷ []; stdout = []; returncode = special_exit_code }

-- From where the file is open.
abbrev copies : (max_size : ℕ) → Bytes → Option String → Process
copies max_size content broken =
    if ltb max_size (length content) then fails "File too large" else elim broken [
      | none ↦ record { stderr = "OK" ∷ []; stdout = content; returncode = 0 }
      | some message ↦ record {
        stderr = "OK" ∷ message ∷ [];
        stdout = content;
        returncode = special_exit_code;
      }
    ]

unfoldable pub get_cmd : (relpath : String) (max_size : ℕ) → File → Process
get_cmd relpath max_size file =
    if is_absolute relpath then fails "Invalid path" else elim file.size [
      | err message ↦ fails message
      | ok size ↦ if ltb max_size size then fails "File too large" else elim file.opened [
        | err message ↦ fails message
        | ok (content, broken) ↦ copies max_size content broken
      ]
    ]

-- A generator: what it yields, and whether it then raises.
pub record Stream : Type 0 where
  pub chunks : List Bytes
  pub end : Result SiteFilesException (Unit {0})

abbrev print_lines : List String → String
print_lines [] = ""
print_lines (line ∷ lines) = line ⊕ "\n" ⊕ print_lines lines

abbrev first_line : List String → String
first_line [] = ""
first_line (line ∷ lines) = strip line

abbrev later_lines : List String → String
later_lines [] = ""
later_lines (line ∷ lines) = print_lines lines

-- `raise_for_process_result`, and the error where the download was not successful.
abbrev finish :
    (success : Bool) (errors : String)
    → Result SiteFilesException (Unit {0})
    → Result SiteFilesException (Unit {0})
finish success errors (err ex) = err ex
finish success errors (ok u) = if success then ok u else err (hidden (strip errors))

-- `cut` is how the reads from the pipe cut what the process wrote.
unfoldable pub stream_site_file : (cut : Bytes → List Bytes) → Process → Stream
unfolding raise_for_process_result
stream_site_file cut p =
    let errors = first_line p.stderr ⊕ later_lines p.stderr in
    let success = first_line p.stderr == "OK" in
    record {
      chunks = if success then cut p.stdout else [];
      end = finish success errors (raise_for_process_result p.returncode errors);
    }

pub data Page : Type 0 where
  body : Bytes → Page
  refused : (text : String) (status : ℕ) → Page

abbrev join_chunks : List Bytes → Bytes
join_chunks [] = []
join_chunks (chunk ∷ chunks) = chunk ++ join_chunks chunks

-- An exception after the first chunk ends the response.
unfoldable pub page_of : Stream → Page
page_of s = elim s.chunks [
  | [] ↦ elim s.end [
    | ok u ↦ body []
    | err (user_viewable message) ↦ refused message 400
    | err (hidden message) ↦ refused "Internal error" 500
    | err (not_started message) ↦ refused "Internal error" 500
  ]
  | chunk ∷ chunks ↦ body (join_chunks (chunk ∷ chunks))
]

unfoldable pub get_file_page :
    (cut : Bytes → List Bytes) (max_size : ℕ) (file : String → File) → Option String → Page
unfolding page_of stream_site_file get_cmd
get_file_page cut max_size file none = refused "path parameter not passed" 400
get_file_page cut max_size file (some path) =
    page_of (stream_site_file cut (get_cmd path max_size (file path)))

-- The reads give all that was written.
abbrev pub IsCut : (Bytes → List Bytes) → Type 0
IsCut cut = (written : Bytes) → join_chunks (cut written) ≡ written

page_of-chunks :
    (s : Stream) (content : Bytes)
    → join_chunks s.chunks ≡ content
    → s.end ≡ ok tt
    → page_of s ≡ body content
unfolding page_of
page_of-chunks s content e f = go s.chunks refl
  where
    go : (l : List Bytes) → s.chunks ≡ l → page_of s ≡ body content
    go [] g = rw (g, f, page_of) (ap body (sym (ap join_chunks g) ∙ e))
    go (chunk ∷ chunks) g = rw (g, page_of) (ap body (sym (ap join_chunks g) ∙ e))

-- A file that can be read, in one run of the helper, under a path that is not absolute.
module _ (cut : Bytes → List Bytes) (whole : IsCut cut) (max_size : ℕ) (file : String → File)
    (path : String) (content : Bytes) (relative : is_absolute path ≡ false)
    (sized : (file path).size ≡ ok (length content))
    (readable : (file path).opened ≡ ok (content, none)) where
  small-page :
      ltb max_size (length content) ≡ false
      → get_file_page cut max_size file (some path) ≡ body content
  unfolding get_file_page stream_site_file get_cmd
  small-page fits =
      let process : get_cmd path max_size (file path)
          ≡ record { stderr = "OK" ∷ []; stdout = content; returncode = 0 } =
        rw (relative, sized, fits, readable, fits, get_cmd) refl in
      ap (λ p. page_of (stream_site_file cut p)) process
      ∙ page_of-chunks
          (stream_site_file cut (record { stderr = "OK" ∷ []; stdout = content; returncode = 0 }))
          content (whole content) refl

  large-page :
      ltb max_size (length content) ≡ true
      → get_file_page cut max_size file (some path) ≡ refused "File too large" 400
  unfolding get_file_page stream_site_file get_cmd page_of
  large-page large =
      let process : get_cmd path max_size (file path) ≡ fails "File too large" =
        rw (relative, sized, large, get_cmd) refl in
      ap (λ p. page_of (stream_site_file cut p)) process

  -- The page of a file that can be read, under a path that is not absolute, whatever the reads from the
  -- pipe are: the whole content where it is no longer than the limit, and otherwise "File too large"
  -- with status 400 and nothing of the content.
  pub get_file_page-whole :
      ((length content ≤ max_size) × (get_file_page cut max_size file (some path) ≡ body content))
      ⊎ ((max_size < length content)
          × (get_file_page cut max_size file (some path) ≡ refused "File too large" 400))
  get_file_page-whole = elim (Bool-cases (ltb max_size (length content))) [
    | inl large ↦ inr (ltb→lt max_size (length content) large, large-page large)
    | inr fits ↦ inl (ground arith, small-page fits)
  ]
