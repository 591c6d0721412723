-- ===== src/Orchestrator/Monitor/Tests.antt =====
-- Runs of the model of the monitor's protocol, and the properties at concrete inputs.
use director.Prelude.{Bytes, ◌≡◌, refl, Bool, true, List, [], ◌∷◌, map, length}
use director.Orchestrator.Monitor.{
  Request, add_watch, rm_watch, stop, written, take_lines, read_chunks, request, invalid,
  parse_line,
}
use director.Orchestrator.Monitor.Protocol.{read_chunks-written}

abbrev any_bytes : Bytes → Bool
any_bytes name = true

abbrev requests : List Request
requests = add_watch (b'a' ∷ []) ∷ rm_watch (b'b' ∷ []) ∷ stop ∷ []

-- What is written for them, in three reads.
abbrev chunks : List Bytes
chunks = (b'+' ∷ []) ∷ (b'a' ∷ b'\n' ∷ b'-' ∷ b'b' ∷ []) ∷ (b'\n' ∷ b'q' ∷ b'\n' ∷ []) ∷ []

read_chunks-written_example :
    (map (parse_line any_bytes) (read_chunks [] chunks).0 ≡ map request requests)
    × ((read_chunks [] chunks).1 ≡ [])
unfolding written
read_chunks-written_example =
    read_chunks-written any_bytes requests chunks
      (((refl, tt), refl, refl), (((refl, tt), refl, refl), (refl, tt))) refl

-- A name with a newline in it is read as two requests.
newline_test :
    let data' = written (add_watch (b'a' ∷ b'\n' ∷ b'-' ∷ b'b' ∷ [])) in
    map (parse_line any_bytes) (take_lines (length data') data').0
    ≡ request (add_watch (b'a' ∷ [])) ∷ request (rm_watch (b'b' ∷ [])) ∷ []
unfolding written take_lines parse_line
newline_test = refl

-- And one whose second line is no request ends the helper.
newline_invalid_test :
    let data' = written (add_watch (b'a' ∷ b'\n' ∷ b'b' ∷ [])) in
    map (parse_line any_bytes) (take_lines (length data') data').0
    ≡ request (add_watch (b'a' ∷ [])) ∷ invalid ∷ []
unfolding written take_lines parse_line
newline_invalid_test = refl
