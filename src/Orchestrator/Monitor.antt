-- ===== src/Orchestrator/Monitor.antt =====
-- How `SiteFilesMonitor` of orchestrator/orchestrator/files.py tells `monitor_cmd` of
-- orchestrator/helpers/files-helper.py which directories to watch, over the stdin of the helper.
use director.Prelude.{
  Bytes, split_first, ℕ, zero, suc, Bool, true, false, ◌&&◌, ◌||◌, Option, none, some, List, [],
  ◌∷◌, ◌++◌, eqb, length, if◌then◌else◌,
}
pub mod Lines
pub mod Protocol
mod Tests

-- The names are the bytes of their UTF-8 encoding.
pub data Request : Type 0 where
  add_watch rm_watch : Bytes → Request
  stop : Request

-- What `add_watch`, `rm_watch` and `stop_wait` write.
unfoldable pub written : Request → Bytes
written (add_watch relpath) = b'+' ∷ relpath ++ b'\n' ∷ []
written (rm_watch relpath) = b'-' ∷ relpath ++ b'\n' ∷ []
written stop = b'q' ∷ b'\n' ∷ []

-- The loop of the helper over `stdin_data`: the lines in it, and what stays behind the last newline.
unfoldable pub take_lines : (fuel : ℕ) → Bytes → List Bytes × Bytes
take_lines zero bytes = ([], bytes)
take_lines (suc fuel) bytes = elim (split_first b'\n' bytes) [
  | none ↦ ([], bytes)
  | some (line, rest) ↦ let more = take_lines fuel rest in (line ∷ more.0, more.1)
]

-- The reads of stdin, one after the other: the lines that they complete, and what waits for the next.
unfoldable pub read_chunks : Bytes → List Bytes → List Bytes × Bytes
unfolding take_lines
read_chunks bytes [] = ([], bytes)
read_chunks bytes (chunk ∷ chunks) =
    let now = take_lines (length (bytes ++ chunk)) (bytes ++ chunk) in
    let later = read_chunks now.1 chunks in (now.0 ++ later.0, later.1)

abbrev pub is_crlf : ℕ → Bool
is_crlf c = eqb c b'\r' || eqb c b'\n'

abbrev pub lstrip : Bytes → Bytes
lstrip [] = []
lstrip (c ∷ cs) = let rest = lstrip cs in if is_crlf c then rest else c ∷ cs

abbrev is_nil : Bytes → Bool
is_nil [] = true
is_nil (c ∷ cs) = false

abbrev pub rstrip : Bytes → Bytes
rstrip [] = []
rstrip (c ∷ cs) = let rest = rstrip cs in if is_nil rest && is_crlf c then [] else c ∷ rest

-- What the helper takes a line for; an invalid one ends it with the special exit code.
pub data Line : Type 0 where
  ignored invalid : Line
  request : Request → Line

-- `is_utf8` is whether `bytes.decode()` succeeds.
unfoldable pub parse_line : (is_utf8 : Bytes → Bool) → Bytes → Line
parse_line is_utf8 [] = ignored
parse_line is_utf8 (operation ∷ name) =
    let fname = lstrip (rstrip name) in
    if is_utf8 name
    then (if eqb operation b'+'
        then request (add_watch fname)
        else if eqb operation b'-'
        then request (rm_watch fname)
        else if eqb operation b'q'
        then request stop
        else invalid)
    else invalid
