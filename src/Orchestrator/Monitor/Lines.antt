-- ===== src/Orchestrator/Monitor/Lines.antt =====
-- Which lines the helper reads does not depend on how its stdin comes to it.
use director.Prelude.{
  Bytes, ap, sym, split_first, ℕ, zero, suc, ◌≤◌, ◌≡◌, refl, false, Bool-cases, Option-cases,
  Option, none, some, List, [], ◌∷◌, ◌++◌, eqb, length, append-nil, append_assoc, arith, inl, inr,
  if◌then◌else◌,
}
use director.Orchestrator.Monitor.{take_lines, read_chunks}

-- One more byte in front.
abbrev pub before : ℕ → List Bytes × Bytes → List Bytes × Bytes
before c ([], rest) = ([], c ∷ rest)
before c (line ∷ lines, rest) = ((c ∷ line) ∷ lines, rest)

-- The lines of all the data, byte by byte.
abbrev pub split_lines : Bytes → List Bytes × Bytes
split_lines [] = ([], [])
split_lines (c ∷ cs) =
    let more = split_lines cs in if eqb c b'\n' then ([] ∷ more.0, more.1) else before c more

abbrev pub concat : List Bytes → Bytes
concat [] = []
concat (chunk ∷ chunks) = chunk ++ concat chunks

abbrev fst : Option (Bytes × Bytes) → Bytes
fst none = []
fst (some (line, rest)) = line

abbrev snd : Option (Bytes × Bytes) → Bytes
snd none = []
snd (some (line, rest)) = rest

split_first-none :
    (bytes : Bytes) → split_first b'\n' bytes ≡ none → split_lines bytes ≡ ([], bytes)
split_first-none [] h = refl
split_first-none (c ∷ cs) h = elim (Bool-cases (eqb c b'\n')) [
  | inl n ↦ let h' : some ([], cs) ≡ none = rw n at h in ground arith
  | inr n ↦ elim (Option-cases (split_first b'\n' cs)) [
    | inl e ↦ rw (n, split_first-none cs e) refl
    | inr ((line, rest), e) ↦ let h' : some (c ∷ line, rest) ≡ none = rw (n, e) at h in ground arith
  ]
]

pub split_first-some :
    (bytes line rest : Bytes)
    → split_first b'\n' bytes ≡ some (line, rest)
    → (split_lines bytes ≡ (line ∷ (split_lines rest).0, (split_lines rest).1))
      × (suc (length rest) ≤ length bytes)
split_first-some [] line rest h = ground arith
split_first-some (c ∷ cs) line rest h = elim (Bool-cases (eqb c b'\n')) [
  | inl n ↦
      let h' : some ([], cs) ≡ some (line, rest) = rw n at h in
      let l : [] ≡ line = ap fst h' in
      let r : cs ≡ rest = ap snd h' in (rw (n, sym l, sym r) refl, rw (sym r) (omega arith))
  | inr n ↦ elim (Option-cases (split_first b'\n' cs)) [
    | inl e ↦ let h' : none ≡ some (line, rest) = rw (n, e) at h in ground arith
    | inr ((l, r), e) ↦
        let h' : some (c ∷ l, r) ≡ some (line, rest) = rw (n, e) at h in
        let l' : c ∷ l ≡ line = ap fst h' in
        let r' : r ≡ rest = ap snd h' in
        let (s, small) = split_first-some cs l r e in
        (rw (n, s, sym l', sym r') refl, rw (sym r') (omega arith))
  ]
]

-- The loop of the helper, with as much fuel as there are bytes, ends with no line left over.
pub take_lines-split_lines :
    (fuel : ℕ) (bytes : Bytes) → length bytes ≤ fuel → take_lines fuel bytes ≡ split_lines bytes
unfolding take_lines
take_lines-split_lines zero [] h = refl
take_lines-split_lines zero (c ∷ cs) h = ground arith
take_lines-split_lines (suc fuel) bytes h = elim (Option-cases (split_first b'\n' bytes)) [
  | inl e ↦ rw (e, take_lines, split_first-none bytes e) refl
  | inr ((line, rest), e) ↦
      let (s, l) = split_first-some bytes line rest e in
      rw (e, take_lines, s, take_lines-split_lines fuel rest (omega arith)) refl
]

before-append :
    (c : ℕ) (cs ys : Bytes) (m : List Bytes × Bytes)
    → eqb c b'\n' ≡ false
    → split_lines (cs ++ ys) ≡ (m.0 ++ (split_lines (m.1 ++ ys)).0, (split_lines (m.1 ++ ys)).1)
    → before c (split_lines (cs ++ ys)) ≡ (
      (before c m).0 ++ (split_lines ((before c m).1 ++ ys)).0,
      (split_lines ((before c m).1 ++ ys)).1,
    )
before-append c cs ys ([], rest) n ih = rw (ih, n) refl
before-append c cs ys (line ∷ lines, rest) n ih = rw ih refl

split_lines-append :
    (xs ys : Bytes)
    → let m = split_lines xs in
      split_lines (xs ++ ys) ≡ (m.0 ++ (split_lines (m.1 ++ ys)).0, (split_lines (m.1 ++ ys)).1)
split_lines-append [] ys = refl
split_lines-append (c ∷ cs) ys = elim (Bool-cases (eqb c b'\n')) [
  | inl n ↦ rw (n, split_lines-append cs ys) refl
  | inr n ↦ rw n (before-append c cs ys (split_lines cs) n (split_lines-append cs ys))
]

before-rest :
    (c : ℕ) (m : List Bytes × Bytes)
    → eqb c b'\n' ≡ false
    → split_lines m.1 ≡ ([], m.1)
    → split_lines (before c m).1 ≡ ([], (before c m).1)
before-rest c ([], rest) n h = rw (n, h) refl
before-rest c (line ∷ lines, rest) n h = h

-- No line is left in what stays behind the last newline.
split_lines-rest : (xs : Bytes) → split_lines (split_lines xs).1 ≡ ([], (split_lines xs).1)
split_lines-rest [] = refl
split_lines-rest (c ∷ cs) = elim (Bool-cases (eqb c b'\n')) [
  | inl n ↦ rw n (split_lines-rest cs)
  | inr n ↦ rw n (before-rest c (split_lines cs) n (split_lines-rest cs))
]

pub read_chunks-split_lines :
    (bytes : Bytes) (chunks : List Bytes)
    → split_lines bytes ≡ ([], bytes)
    → read_chunks bytes chunks ≡ split_lines (bytes ++ concat chunks)
unfolding read_chunks
read_chunks-split_lines bytes [] h = rw (append-nil bytes) (sym h)
read_chunks-split_lines bytes (chunk ∷ chunks) h =
    let now = split_lines (bytes ++ chunk) in
    rw
      (
        take_lines-split_lines (length (bytes ++ chunk)) (bytes ++ chunk) (omega arith),
        read_chunks-split_lines now.1 chunks (split_lines-rest (bytes ++ chunk)),
        sym (append_assoc bytes chunk (concat chunks)),
        split_lines-append (bytes ++ chunk) (concat chunks),
      )
      refl
