-- ===== src/Orchestrator/Docker/Waiting.antt =====
-- When the wait for the reload of Nginx in orchestrator/orchestrator/docker/services.py ends.
use director.Prelude.{
  ℕ, zero, suc, ◌+◌, ◌-◌, ◌≤◌, ◌<◌, ◌≡◌, ◌≢◌, ap, String, Bool-cases, Option, none, some, leb, inl,
  inr, ◌⊎◌, arith,
}
use director.Prelude.Exec.{Result, ok, err, continue, >>=-eq-ok}
use director.Orchestrator.Docker.Services.{
  Raised, action_error, unfinished, ExecInfo, Client, Call, finished, look, wait_until,
  wait_for_exec_exit_code,
}

-- What the wait relies on: `time.monotonic` is a clock that goes on by what is slept, and does not go back.
pub record IsTimed {W : Type 0} (client : Client W) (clock : W → ℕ) : Type 0 where
  pub reads : (w : W) → client.monotonic w ≡ (ok (clock w), w)
  pub sleeps : (n : ℕ) (w : W) → client.sleep n w ≡ (ok tt, (client.sleep n w).1)
  pub goes_on : (n : ℕ) (w : W) → clock w + n ≤ clock (client.sleep n w).1
  pub no_return : (id : String) (w : W) → clock w ≤ clock (client.exec_inspect id w).1
  pub inspected : (id : String) (w : W) → (client.exec_inspect id w).0 ≢ err unfinished

abbrev code_of : Result Raised ℕ → ℕ
code_of (ok c) = c
code_of (err e) = 0

abbrev error_of : {A : Type 0} → Result Raised A → Raised
error_of (ok a) = unfinished
error_of (err e) = e

module _ {W : Type 0} where
  continue-unfinished :
      {A B : Type 0} (r : Result Raised A) (f : A → Call W B) (w : W)
      → r ≢ err unfinished
      → ((a : A) → (f a w).0 ≢ err unfinished)
      → (continue r f w).0 ≢ err unfinished
  continue-unfinished (ok a) f w n k h = k a h
  continue-unfinished (err e) f w n k h = n (ap err (ap error_of h))

module _ {W : Type 0} (client : Client W) (clock : W → ℕ) (timed : IsTimed client clock) where
  look-unfinished :
      (deadline interval : ℕ) (again : Call W ℕ) (o : Option ℕ) (w : W)
      → (clock w < deadline → (again (client.sleep interval w).1).0 ≢ err unfinished)
      → (look client deadline interval again o w).0 ≢ err unfinished
  look-unfinished deadline interval again (some exit_code) w k = λ h. ground arith
  look-unfinished deadline interval again none w k =
      rw (timed.reads w) (elim (Bool-cases (leb deadline (clock w))) [
        | inl late ↦ rw late (λ h. ground arith)
        | inr early ↦ rw (early, timed.sleeps interval w) (k (ground arith))
      ])

  wait_until-unfinished :
      (fuel deadline interval : ℕ) (id : String) (w : W)
      → 0 < interval
      → deadline - clock w < fuel
      → (wait_until client fuel deadline interval id w).0 ≢ err unfinished
  unfolding wait_until
  wait_until-unfinished zero deadline interval id w pos enough = ground arith
  wait_until-unfinished (suc fuel) deadline interval id w pos enough =
      let w1 = (client.exec_inspect id w).1 in
      let w2 = (client.sleep interval w1).1 in
      let kept : clock w ≤ clock w1 = timed.no_return id w in
      let slept : clock w1 + interval ≤ clock w2 = timed.goes_on interval w1 in
      continue-unfinished (client.exec_inspect id w).0 _ w1 (timed.inspected id w) (λ info.
        look-unfinished deadline interval (wait_until client fuel deadline interval id)
          (finished info) w1
          (λ early. wait_until-unfinished fuel deadline interval id w2 pos (omega arith)))

  -- Where Docker answers and the clock goes on by what is slept, and one round of fuel is given for each unit of the
  -- timeout and one more, the wait ends: with a code, or with an error that it raises.
  pub wait_for_exec_exit_code-unfinished :
      (timeout interval : ℕ) (id : String) (w : W)
      → 0 < interval
      → (wait_for_exec_exit_code client (suc timeout) timeout interval id w).0 ≢ err unfinished
  unfolding wait_for_exec_exit_code
  wait_for_exec_exit_code-unfinished timeout interval id w pos =
      rw (timed.reads w)
        (wait_until-unfinished (suc timeout) (clock w + timeout) interval id w pos (omega arith))

module _ {W : Type 0} (client : Client W) where
  look-finished :
      (deadline interval : ℕ) (again : Call W ℕ) (o : Option ℕ) (w w' : W) (exit_code : ℕ)
      → look client deadline interval again o w ≡ (ok exit_code, w')
      → ((o ≡ some exit_code) × (w ≡ w')) ⊎ ((v : W) × (again v ≡ (ok exit_code, w')))
  look-finished deadline interval again (some c) w w' exit_code h =
      inl (ap some (ap (λ r. code_of r.0) h), ap (λ r. r.1) h)
  look-finished deadline interval again none w w' exit_code h =
      let (now, e, k) = >>=-eq-ok client.monotonic _ w h in
      elim (Bool-cases (leb deadline now)) [
        | inl late ↦
            let k' : (err (action_error "Timed out reloading Nginx config"), (client.monotonic w).1)
                ≡ (ok exit_code, w') =
              rw late at k in
            ground arith
        | inr early ↦
            let (u, e', k') =
              >>=-eq-ok (client.sleep interval) _ (client.monotonic w).1 (rw early at k) in
            inr ((client.sleep interval (client.monotonic w).1).1, k')
      ]

  wait_until-finished :
      (fuel deadline interval : ℕ) (id : String) (w w' : W) (exit_code : ℕ)
      → wait_until client fuel deadline interval id w ≡ (ok exit_code, w')
      → (v : W) × (info : ExecInfo) × (client.exec_inspect id v ≡ (ok info, w'))
        × (finished info ≡ some exit_code)
  unfolding wait_until
  wait_until-finished zero deadline interval id w w' exit_code h = ground arith
  wait_until-finished (suc fuel) deadline interval id w w' exit_code h =
      let (info, e, k) = >>=-eq-ok (client.exec_inspect id) _ w h in
      elim (look-finished deadline interval (wait_until client fuel deadline interval id)
        (finished info) (client.exec_inspect id w).1 w' exit_code k) [
          | inl (f, s) ↦ (w, info, λ i. (e i, s i), f)
          | inr (v, k') ↦ wait_until-finished fuel deadline interval id v w' exit_code k'
        ]

  -- A wait that gives a code has seen at its end that the command does not run any more and ended with this code, which is
  -- there: a command that has ended without a code yet is waited for.
  pub wait_for_exec_exit_code-finished :
      (fuel timeout interval : ℕ) (id : String) (w w' : W) (exit_code : ℕ)
      → wait_for_exec_exit_code client fuel timeout interval id w ≡ (ok exit_code, w')
      → (v : W) × (info : ExecInfo) × (client.exec_inspect id v ≡ (ok info, w'))
        × (finished info ≡ some exit_code)
  unfolding wait_for_exec_exit_code
  wait_for_exec_exit_code-finished fuel timeout interval id w w' exit_code h =
      let (start, e, k) = >>=-eq-ok client.monotonic _ w h in
      wait_until-finished fuel (start + timeout) interval id _ w' exit_code k
