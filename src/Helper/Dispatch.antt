-- ===== src/Helper/Dispatch.antt =====
-- How `main` of orchestrator/helpers/files-helper.py answers every list of arguments.
use director.Prelude.{
  ℕ, sym, ◌≡◌, ◌≢◌, refl, String, true, Bool-cases, Option, none, some, List, [], ◌∷◌, ◌==◌, eqb,
  length, inl, inr, any, arith,
}
use director.Prelude.Text.{◌⊕◌}
use director.Prelude.Exec.{err}
use director.Helper.Safety.{mkdir, create}
use director.Helper.Main.{
  Invocation, on_path, write, usage, type_error, one, two, three, four, two_or_three, Entry,
  commands, find, called, run_entry, main,
}

-- The function takes every number of arguments that the table lets through.
abbrev IsFit : (List String → Option Invocation) → List ℕ → Type 0
IsFit call counts = (args : List String) → any (eqb (length args)) counts ≡ true → call args ≢ none

one-IsFit : (f : String → Invocation) → IsFit (one f) (1 ∷ [])
one-IsFit f [] h n = ground arith
one-IsFit f (d ∷ []) h n = ground arith
one-IsFit f (d ∷ a ∷ rest) h n = ground arith

two-IsFit : (f : String → String → Invocation) → IsFit (two f) (2 ∷ [])
two-IsFit f [] h n = ground arith
two-IsFit f (d ∷ []) h n = ground arith
two-IsFit f (d ∷ a ∷ []) h n = ground arith
two-IsFit f (d ∷ a ∷ b ∷ rest) h n = ground arith

two_or_three-IsFit :
    (f : String → String → Option String → Invocation) → IsFit (two_or_three f) (2 ∷ 3 ∷ [])
two_or_three-IsFit f [] h n = ground arith
two_or_three-IsFit f (d ∷ []) h n = ground arith
two_or_three-IsFit f (d ∷ a ∷ []) h n = ground arith
two_or_three-IsFit f (d ∷ a ∷ b ∷ []) h n = ground arith
two_or_three-IsFit f (d ∷ a ∷ b ∷ c ∷ rest) h n = ground arith

three-IsFit : (f : String → String → String → Invocation) → IsFit (three f) (3 ∷ [])
three-IsFit f [] h n = ground arith
three-IsFit f (d ∷ []) h n = ground arith
three-IsFit f (d ∷ a ∷ []) h n = ground arith
three-IsFit f (d ∷ a ∷ b ∷ []) h n = ground arith
three-IsFit f (d ∷ a ∷ b ∷ c ∷ rest) h n = ground arith

four-IsFit : (f : String → String → String → String → Invocation) → IsFit (four f) (4 ∷ [])
four-IsFit f [] h n = ground arith
four-IsFit f (d ∷ []) h n = ground arith
four-IsFit f (d ∷ a ∷ []) h n = ground arith
four-IsFit f (d ∷ a ∷ b ∷ []) h n = ground arith
four-IsFit f (d ∷ a ∷ b ∷ c ∷ []) h n = ground arith
four-IsFit f (d ∷ a ∷ b ∷ c ∷ e ∷ rest) h n = ground arith

AreFit : List Entry → Type 0
AreFit [] = Unit
AreFit (e ∷ es) = IsFit e.call e.counts × AreFit es

commands-AreFit : AreFit commands
unfolding AreFit
commands-AreFit = (
  one-IsFit _,
  (
    two-IsFit _,
    (
      three-IsFit _,
      (
        two_or_three-IsFit write,
        (
          one-IsFit _,
          (
            one-IsFit _,
            (
              two-IsFit _,
              (
                two-IsFit _,
                (
                  two_or_three-IsFit (λ d a m. on_path d (mkdir a m)),
                  (
                    three-IsFit _,
                    (
                      three-IsFit _,
                      (two_or_three-IsFit (λ d a m. on_path d (create a m)), (four-IsFit _, tt)),
                    ),
                  ),
                ),
              ),
            ),
          ),
        ),
      ),
    ),
  ),
)

find-IsFit :
    (name : String) (es : List Entry) (e : Entry)
    → AreFit es
    → find name es ≡ some e
    → IsFit e.call e.counts
unfolding AreFit
find-IsFit name [] e h f = ground arith
find-IsFit name (e' ∷ es) e (h, hs) f = elim (Bool-cases (e'.name == name)) [
  | inl same ↦ let e'' : e' ≡ e = ground arith in rw (sym e'') h
  | inr other ↦ find-IsFit name es e hs (rw other at f)
]

called-type_error : (o : Option Invocation) → o ≢ none → called o ≢ err type_error
called-type_error none n h = n refl
called-type_error (some i) n h = ground arith

run_entry-type_error :
    (repr : String → String) (name : String) (args : List String) (found : Option Entry)
    → ((e : Entry) → found ≡ some e → IsFit e.call e.counts)
    → run_entry repr name args found ≢ err type_error
run_entry-type_error repr name args none fit h = ground arith
run_entry-type_error repr name args (some e) fit h =
    elim (Bool-cases (any (eqb (length args)) e.counts)) [
      | inl t ↦ called-type_error (e.call args) (fit e refl args t) (rw t at h)
      | inr n ↦
          let h' : err (usage ("Invalid number of arguments to command " ⊕ repr name))
              ≡ err type_error =
            rw n at h in
          ground arith
    ]

-- Whatever the arguments are, `main` refuses them with a text, or calls the function of a command with as many
-- arguments as it takes: its table of numbers agrees with the functions.
pub main-type_error :
    (repr : String → String) (args : List String) → main repr args ≢ err type_error
unfolding main
main-type_error repr [] h = ground arith
main-type_error repr (name ∷ args) h =
    run_entry-type_error repr name args (find name commands)
      (λ e f. find-IsFit name commands e commands-AreFit f) h
