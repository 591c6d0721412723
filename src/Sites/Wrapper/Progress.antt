-- ===== src/Sites/Wrapper/Progress.antt =====
-- How far a run of manager/director/apps/sites/helpers.py gets: it stops at the first action that
-- fails, and the rows show it.
use director.Prelude.{◌≡◌, refl, Bool, true, false, some, List, [], ◌∷◌, arith, ◌⊎◌, inl, inr}
use director.Prelude.Exec.{Result, ok, err, continue}
use director.Sites.Models.{Action}
use director.Sites.Status.{succeeded, failed, has_failed}
use director.Sites.Wrapper.{
  RunError, Current, Step, on_action, Hooks, run_action, fail_action, after_action, actions_of,
  run_steps,
}

-- The rows `after` a run over the rows `before`, where `done` is its result: each action of `after`
-- succeeded, up to the end, or up to one that failed behind which the rows are as they were.
abbrev pub Ran : Bool → List Action → List Action → Type 0
Ran done [] [] = done ≡ true
Ran done [] (a ∷ after) = ⊥
Ran done (b ∷ before) [] = ⊥
Ran done (b ∷ before) (a ∷ after) =
    ((succeeded a ≡ true) × Ran done before after)
    ⊎ ((done ≡ false) × (failed a ≡ true) × (after ≡ before))

module _ {Ex S : Type 0} (hooks : Hooks Ex S) where
  marked :
      (r : Result (RunError Ex) (Unit {0})) (c : Current S) (u : Unit {0})
      → (continue r (λ _. on_action (λ a. record a { result = some true })) c).0 ≡ ok u
      → succeeded (continue r (λ _. on_action (λ a. record a { result = some true })) c).1.action
        ≡ true
  unfolding succeeded
  marked (ok v) c u h = refl
  marked (err e) c u h = absurd (cc)

  run_action-succeeded :
      (step : Step Ex S) (s : S) (u : Unit {0})
      → (run_action hooks step s).0 ≡ ok u
      → succeeded (run_action hooks step s).1.action ≡ true
  unfolding run_action
  run_action-succeeded step s u h = marked _ _ u h

  fail_action-failed : (e : RunError Ex) (c : Current S) → failed (fail_action hooks e c) ≡ true
  unfolding fail_action failed
  fail_action-failed e c = refl

  after_action-Ran :
      (r : Result (RunError Ex) (Unit {0})) (c : Current S) (b : Action) (waiting : List Action)
      (rest : Bool × List Action × S)
      → ((u : Unit {0}) → r ≡ ok u → succeeded c.action ≡ true)
      → Ran rest.0 waiting rest.1
      → Ran
          (after_action hooks r c waiting rest).0
          (b ∷ waiting)
          (after_action hooks r c waiting rest).1
  unfolding after_action
  after_action-Ran (ok u) c b waiting rest good h = inl (good u refl, h)
  after_action-Ran (err e) c b waiting rest good h = inr (refl, fail_action-failed e c, refl)

  pub run_steps-Ran :
      (steps : List (Step Ex S)) (s : S)
      → Ran (run_steps hooks steps s).0 (actions_of hooks steps) (run_steps hooks steps s).1
  unfolding run_steps
  run_steps-Ran [] s = refl
  run_steps-Ran (step ∷ steps) s =
      after_action-Ran (run_action hooks step s).0 (run_action hooks step s).1 step.action
        (actions_of hooks steps) _ (run_action-succeeded step s)
        (run_steps-Ran steps (run_action hooks step s).1.world)

pub Ran-has_failed :
    (done : Bool) (before after : List Action)
    → Ran done before after
    → done ≡ false
    → has_failed after ≡ true
unfolding has_failed
Ran-has_failed done [] [] h e = absurd (cc)
Ran-has_failed done [] (a ∷ after) h e = absurd h
Ran-has_failed done (b ∷ before) [] h e = absurd h
Ran-has_failed done (b ∷ before) (a ∷ after) (inl (s, h)) e =
    ground (arith, Ran-has_failed done before after h e)
Ran-has_failed done (b ∷ before) (a ∷ after) (inr (d, f, _)) e = rw f
