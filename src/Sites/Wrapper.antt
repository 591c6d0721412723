-- ===== src/Sites/Wrapper.antt =====
-- manager/director/apps/sites/helpers.py: `OperationWrapper` and `auto_run_operation_wrapper`. The
-- row of an action and its object are one value here, since each change is followed by a `save`.
pub mod Progress
use director.Prelude.{
  ℕ, zero, suc, ◌+◌, ◌≡◌, refl, String, Bool, true, false, not, Option, none, some, List, [], ◌∷◌,
  ◌++◌, map, arith, if◌then◌else◌, ◌==◌, All,
}
use director.Prelude.Text.{◌⊕◌}
use director.Prelude.Exec.{Result, ok, err, Exec, pure, raise, modify, ◌>>=◌, ◌>>◌}
use director.Sites.Models.{Action, Operation}

-- What a callback yields: a text, a pair, a tuple of another length, or something else.
pub data Item : Type 0 where
  text : String → Item
  pair : String → String → Item
  long_tuple no_tuple : Item

-- The exceptions of `run_action`, and those of a callback.
pub data RunError (Ex : Type 0) : Type 0 where
  type_error value_error : RunError Ex
  callback_error : Ex → RunError Ex

-- The action that runs, beside the rest of the state.
pub record Current (S : Type 0) : Type 0 where
  pub action : Action
  pub world : S

abbrev pub Gen : Type 0 → Type 0 → Type 0 → Type 0
Gen Ex S A = Exec (RunError Ex) (Current S) A

-- A generator is given what the loop does with each item that it yields.
abbrev pub Callback : Type 0 → Type 0 → Type 0
Callback Ex S = (Item → Gen Ex S (Unit {0})) → Gen Ex S (Unit {0})

-- `add_action`: the row of a new action, and its callback.
pub record Step (Ex S : Type 0) : Type 0 where
  pub action : Action
  pub callback : Callback Ex S

-- The row that `Action.objects.create` makes.
unfoldable pub new_action : String → String → Bool → Action
new_action slug name user_recoverable = record {
  slug = slug;
  name = name;
  started_time = none;
  before_state = "";
  after_state = "";
  result = none;
  message = "";
  user_recoverable = user_recoverable;
}

unfoldable pub add_action : {Ex S : Type 0} → String → String → Bool → Callback Ex S → Step Ex S
add_action name slug user_recoverable callback = record {
  action = new_action slug name user_recoverable;
  callback = callback;
}

module _ {Ex S : Type 0} where
  abbrev pub on_action : (Action → Action) → Gen Ex S (Unit {0})
  on_action f = modify (λ c. record c { action = f c.action })

  abbrev pub on_world : (S → S) → Gen Ex S (Unit {0})
  on_world f = modify (λ c. record c { world = f c.world })

  -- The body of the loop in `run_action`.
  unfoldable pub handle_pair : String → String → Gen Ex S (Unit {0})
  handle_pair key value =
      if key == "message"
      then on_action (λ a. record a { message = a.message ⊕ value ⊕ "\n" })
      else if key == "after_state"
      then on_action (λ a. record a { after_state = value })
      else if key == "before_state"
      then on_action (λ a. record a { before_state = value })
      else raise value_error

  unfoldable pub handle_item : Item → Gen Ex S (Unit {0})
  unfolding handle_pair
  handle_item (text s) = handle_pair "message" s
  handle_item (pair key value) = handle_pair key value
  handle_item long_tuple = raise value_error
  handle_item no_tuple = raise type_error

-- What the wrapper takes from its surroundings: the time, the message to the site's group, and the
-- text that describes an exception and the scope.
pub record Hooks (Ex S : Type 0) : Type 0 where
  pub now : S → ℕ
  pub notify : S → S
  pub describe : RunError Ex → S → String

module _ {Ex S : Type 0} (hooks : Hooks Ex S) where
  unfoldable pub run_action : Step Ex S → S → Result (RunError Ex) (Unit {0}) × Current S
  unfolding handle_item
  run_action step s =
      (do
        modify
            (λ c. record c { action = record c.action { started_time = some (hooks.now c.world) } })
        on_world hooks.notify
        step.callback handle_item
        on_action (λ a. record a { result = some true }))
        (record { action = step.action; world = s })

  -- The handler in `execute_operation`.
  unfoldable pub fail_action : RunError Ex → Current S → Action
  fail_action e c = record c.action {
    message = c.action.message ⊕ hooks.describe e c.world;
    result = some false;
  }

  abbrev pub actions_of : List (Step Ex S) → List Action
  actions_of = map (λ s. s.action)

  -- The loop body of `execute_operation` behind `run_action`, where `rest` is what the rounds that
  -- are left would give.
  unfoldable pub after_action :
      Result (RunError Ex) (Unit {0})
      → Current S
      → List Action
      → Bool × List Action × S
      → Bool × List Action × S
  unfolding fail_action
  after_action (ok u) c waiting rest = (rest.0, c.action ∷ rest.1, rest.2)
  after_action (err e) c waiting rest = (false, fail_action e c ∷ waiting, c.world)

  -- The loop: whether all actions succeeded, the rows, and the state.
  unfoldable pub run_steps : List (Step Ex S) → S → Bool × List Action × S
  unfolding run_action after_action
  run_steps [] s = (true, [], s)
  run_steps (step ∷ steps) s =
      let (outcome, c) = run_action step s in
      let rest = run_steps steps c.world in after_action outcome c (actions_of steps) rest

  -- The rows of an operation while its task runs. `none`: the operation has been deleted.
  unfoldable pub execute_operation :
      Operation → List (Step Ex S) → S → Bool × Operation × List Action × S
  unfolding run_steps
  execute_operation op steps s =
      let (done, actions, s') = run_steps steps s in
      (done, record op { started_time = some (hooks.now s) }, actions, s')

  -- `auto_run_operation_wrapper`, after the body of the `with` statement has added the actions.
  unfoldable pub auto_run : Operation → List (Step Ex S) → S → Option Operation × List Action × S
  unfolding execute_operation
  auto_run op steps s =
      let (done, op', actions, s') = execute_operation op steps (hooks.notify s) in
      let s'' = hooks.notify s' in if done then (none, [], s'') else (some op', actions, s'')
