-- ===== src/Sites/Status.antt =====
-- manager/director/apps/sites/models.py: the state of an operation, read off its actions, and what
-- an operation locks.
use director.Prelude.{
  String, Bool, true, false, not, ◌&&◌, none, some, List, [], ◌∷◌, if◌then◌else◌, ◌==◌, any,
}
use director.Sites.Models.{Site, Operation, Action}

-- `result is True`, `result is False`, `result is not None`
unfoldable pub succeeded : Action → Bool
succeeded a = elim a.result [ none ↦ false | some r ↦ r ]

unfoldable pub failed : Action → Bool
failed a = elim a.result [ none ↦ false | some r ↦ not r ]

unfoldable pub finished : Action → Bool
finished a = elim a.result [ none ↦ false | some r ↦ true ]

unfoldable pub result_msg : Action → String
result_msg a = elim a.result [ none ↦ "Not finished" | some r ↦ if r then "Success" else "Failed" ]

unfoldable pub has_started : Operation → Bool
has_started o = elim o.started_time [ none ↦ false | some t ↦ true ]

-- `self.action_set.filter(result=False).exists()`
unfoldable pub has_failed : List Action → Bool
unfolding failed
has_failed actions = any failed actions

unfoldable pub is_failure_user_recoverable : List Action → Bool
unfolding has_failed
is_failure_user_recoverable actions =
    if not (has_failed actions)
    then false
    else not (any (λ a. failed a && not a.user_recoverable) actions)

-- `type in {…}`
abbrev pub one_of : String → List String → Bool
one_of s names = any (λ n. n == s) names

unfoldable pub locks_database : Operation → Bool
locks_database o =
    one_of o.type ("create_site_database" ∷ "regen_database_password" ∷ "delete_site" ∷ [])

unfoldable pub locks_container : Operation → Site → Bool
unfolding locks_database
locks_container o s =
    if locks_database o && elim s.database [ none ↦ false | some d ↦ true ]
    then true
    else not (
        one_of o.type (
          "rename_site" ∷ "change_site_domains" ∷ "regen_nginx_config" ∷ "regen_database_password"
          ∷ []))
