-- ===== src/Orchestrator/Monitor/Protocol.antt =====
-- What `SiteFilesMonitor` writes is what `monitor_cmd` reads.
use director.Prelude.{
  Bytes, IsFree, split_first-append, ◌≡◌, refl, Bool, true, List, [], ◌∷◌, ◌++◌, map, append_assoc,
  All,
}
use director.Orchestrator.Monitor.{
  Request, add_watch, rm_watch, stop, written, read_chunks, lstrip, rstrip, request, parse_line,
}
use director.Orchestrator.Monitor.Lines.{
  split_lines, split_first-some, read_chunks-split_lines, concat,
}

-- A name without a newline and without a carriage return at either end, and that is UTF-8.
abbrev pub IsPlain : (is_utf8 : Bytes → Bool) → Bytes → Type 0
IsPlain is_utf8 name = IsFree b'\n' name × (lstrip (rstrip name) ≡ name) × (is_utf8 name ≡ true)

abbrev pub IsSafe : (is_utf8 : Bytes → Bool) → Request → Type 0
IsSafe is_utf8 (add_watch name) = IsPlain is_utf8 name
IsSafe is_utf8 (rm_watch name) = IsPlain is_utf8 name
IsSafe is_utf8 stop = is_utf8 [] ≡ true

abbrev line_of : Request → Bytes
line_of (add_watch name) = b'+' ∷ name
line_of (rm_watch name) = b'-' ∷ name
line_of stop = b'q' ∷ []

written-line_of : (r : Request) (rest : Bytes) → written r ++ rest ≡ line_of r ++ b'\n' ∷ rest
unfolding written
written-line_of (add_watch name) rest = rw (append_assoc name (b'\n' ∷ []) rest) refl
written-line_of (rm_watch name) rest = rw (append_assoc name (b'\n' ∷ []) rest) refl
written-line_of stop rest = refl

line_of-IsFree :
    (is_utf8 : Bytes → Bool) (r : Request) → IsSafe is_utf8 r → IsFree b'\n' (line_of r)
line_of-IsFree is_utf8 (add_watch name) h = (refl, h.0)
line_of-IsFree is_utf8 (rm_watch name) h = (refl, h.0)
line_of-IsFree is_utf8 stop h = (refl, tt)

parse_line-line_of :
    (is_utf8 : Bytes → Bool) (r : Request)
    → IsSafe is_utf8 r
    → parse_line is_utf8 (line_of r) ≡ request r
unfolding parse_line
parse_line-line_of is_utf8 (add_watch name) (f, s, u) = rw (u, s) refl
parse_line-line_of is_utf8 (rm_watch name) (f, s, u) = rw (u, s) refl
parse_line-line_of is_utf8 stop h = rw h refl

requests-read :
    (is_utf8 : Bytes → Bool) (requests : List Request)
    → All (IsSafe is_utf8) requests
    → (map (parse_line is_utf8) (split_lines (concat (map written requests))).0
        ≡ map request requests)
      × ((split_lines (concat (map written requests))).1 ≡ [])
requests-read is_utf8 [] h = (refl, refl)
requests-read is_utf8 (r ∷ rs) (h, hs) =
    let all = concat (map written rs) in
    let (s, l) =
      split_first-some (line_of r ++ b'\n' ∷ all) (line_of r) all
        (split_first-append b'\n' (line_of r) all (line_of-IsFree is_utf8 r h)) in
    let (ih, e) = requests-read is_utf8 rs hs in
    rw (written-line_of r all, s, parse_line-line_of is_utf8 r h, ih, e) (refl, refl)

-- From the requests that the orchestrator writes, on names that are UTF-8, contain no newline and neither begin
-- nor end with a carriage return, the helper reads exactly these requests, in their order, however its
-- reads of stdin cut the bytes, and no byte is left.
pub read_chunks-written :
    (is_utf8 : Bytes → Bool) (requests : List Request) (chunks : List Bytes)
    → All (IsSafe is_utf8) requests
    → concat chunks ≡ concat (map written requests)
    → (map (parse_line is_utf8) (read_chunks [] chunks).0 ≡ map request requests)
      × ((read_chunks [] chunks).1 ≡ [])
read_chunks-written is_utf8 requests chunks h e =
    rw (read_chunks-split_lines [] chunks refl, e) (requests-read is_utf8 requests h)
