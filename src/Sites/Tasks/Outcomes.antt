-- ===== src/Sites/Tasks/Outcomes.antt =====
-- What a task of manager/director/apps/sites/tasks.py leaves behind, and which deletions take the
-- site away.
use director.Prelude.{
  ℕ, ◌≡◌, ◌↔◌, refl, Bool, true, false, String, Option, none, some, List, [], ◌∷◌, ◌⊎◌, inl, inr,
  if◌then◌else◌,
}
use director.Sites.Models.{domain_set, Operation, Action, Site}
use director.Sites.Status.{has_failed}
use director.Sites.Wrapper.{Hooks, run_steps}
use director.Sites.Wrapper.Progress.{run_steps-Ran, Ran-has_failed}
use director.Sites.Actions.{Failure, Deps, Manager}
use director.Sites.Tasks.Steps.{
  SiteStep, TaskDeps, Tables, run_delete_site, delete_row, is_filled, delete_site_task,
}

-- How `delete_site_task` can end, where `done` is whether all actions succeeded.
abbrev pub IsDeletion : {W : Type 0} → ℕ → Bool → Tables W → Type 0
IsDeletion id done t =
    ((done ≡ true)
      × (t.operation ≡ none)
      × ((t.site_exists ≡ false) ↔ (domain_set id t.manager.domains ≡ [])))
    ⊎ ((done ≡ false) × (t.site_exists ≡ true) × (has_failed t.actions ≡ true))

is_filled_iff : (names : List String) → (is_filled names ≡ false) ↔ (names ≡ [])
is_filled_iff [] = (λ h. refl, λ h. refl)
is_filled_iff (n ∷ names) = (λ h. absurd (cc), λ h. absurd (cc))

module _ {W : Type 0} where
  -- The tables behind `site.delete()`.
  abbrev closed : ℕ → Option Operation × List Action × Manager W → Tables W
  closed id r = record {
    operation = r.0;
    actions = r.1;
    site_exists = delete_row id r.0 r.2.domains;
    manager = r.2;
  }

  closed-IsDeletion :
      (id : ℕ) (done : Bool) (op : Operation) (actions : List Action) (m : Manager W)
      → (done ≡ false → has_failed actions ≡ true)
      → IsDeletion id done (closed id (if done then (none, [], m) else (some op, actions, m)))
  unfolding delete_row
  closed-IsDeletion id true op actions m h =
      inl (refl, refl, is_filled_iff (domain_set id m.domains))
  closed-IsDeletion id false op actions m h = inr (refl, refl, h refl)

module _ {W : Type 0} (hooks : Hooks Failure (Manager W)) where
  delete_outcome :
      (op : Operation) (m : Manager W) (steps : List (SiteStep W))
      → IsDeletion op.site
          (run_steps hooks steps (hooks.notify m)).0
          (run_delete_site hooks op steps m)
  unfolding run_delete_site
  delete_outcome op m steps =
      closed-IsDeletion op.site (run_steps hooks steps (hooks.notify m)).0 _ _ _
        (Ran-has_failed _ _ _ (run_steps-Ran hooks steps (hooks.notify m)))

module _ {W : Type 0} (d : Deps W) (t : TaskDeps) (hooks : Hooks Failure (Manager W)) where
  -- If every action succeeded, the operation is deleted, and the row of the site is deleted exactly
  -- if no domain belongs to the site. If an action failed, the row of the site stays, and one of the
  -- rows of the actions is marked as failed.
  pub run_delete_site-IsDeletion :
      (op : Operation) (m : Manager W) (s : Site)
      → IsDeletion op.site
          (run_steps hooks (delete_site_task d t s) (hooks.notify m)).0
          (run_delete_site hooks op (delete_site_task d t s) m)
  run_delete_site-IsDeletion op m s = delete_outcome hooks op m (delete_site_task d t s)
