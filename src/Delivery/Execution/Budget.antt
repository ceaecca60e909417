-- ===== src/Delivery/Execution/Budget.antt =====
-- The budget (domain/models.py): `ensure_within` and `record_usage`, and runs of all methods.
use mvp_master.Base.{◌+◌, ◌≤◌, ◌≡◌, refl, ◌↔◌, ◌≢◌, List, [], ◌∷◌, arith, ◌∙◌}
use mvp_master.Exec.{ok, err}
use mvp_master.Delivery.Models.{
  DeliveryError, budget_exceeded, ExecutionBudget, Usage, exceeded, ensure_within, Execution,
}
use mvp_master.Delivery.Execution
use mvp_master.Delivery.Execution.{used, add_usage}
use mvp_master.Delivery.Execution.Operations.{Operation, apply, settle, run}

pub record IsWithin (b : ExecutionBudget) (u : Usage) : Type 0 where
  pub duration : u.duration_seconds ≤ b.max_duration_seconds
  pub attempts : u.attempts ≤ b.max_attempts
  pub turns : u.turns ≤ b.max_turns
  pub cost : u.cost_minor ≤ b.max_cost_minor

pub ensure_within-ok :
    (b : ExecutionBudget) (u : Usage) → (ensure_within b u ≡ ok tt) ↔ IsWithin b u
unfolding ensure_within
ensure_within-ok b u = (λ h. ground arith, λ h. ground arith)

-- A refusal carries the names of the limits that are passed, and there is one at least.
pub ensure_within-err :
    (b : ExecutionBudget) (u : Usage) (x : DeliveryError)
    → ensure_within b u ≡ err x
    → (x ≡ budget_exceeded (exceeded b u)) × (exceeded b u ≢ []) × ¬ IsWithin b u
unfolding ensure_within
ensure_within-err b u x h = ground arith

-- Within the budget `record_usage` adds each count, once, and raises the version by one.
pub record_usage_within :
    (u : Usage) (e : Execution)
    → IsWithin e.budget (add_usage (used e) u)
    → let e' = settle e (Execution.record_usage u e) in
      (Execution.record_usage u e ≡ ok e')
      × (used e' ≡ add_usage (used e) u)
      × (e'.version ≡ e.version + 1)
      × (e'.status ≡ e.status)
unfolding Execution.record_usage
record_usage_within u e h = (ground arith, ground arith, ground arith, ground arith)

-- Beyond the budget `record_usage` raises, with the names of the limits that would be passed, of
-- which there is one at least.
pub record_usage_beyond :
    (u : Usage) (e : Execution)
    → ¬ IsWithin e.budget (add_usage (used e) u)
    → (Execution.record_usage u e
        ≡ err (budget_exceeded (exceeded e.budget (add_usage (used e) u))))
      × (exceeded e.budget (add_usage (used e) u) ≢ [])
unfolding Execution.record_usage
record_usage_beyond u e h = (ground arith, ground arith)

abbrev pub IsThrifty : Execution → Type 0
IsThrifty e = IsWithin e.budget (used e)

-- No operation but `record_usage` counts, and none changes the budget.
pub settle-IsThrifty :
    (op : Operation) (e : Execution) → IsThrifty e → IsThrifty (settle e (apply op e))
unfolding apply
settle-IsThrifty op e h = ground arith

settle-budget : (op : Operation) (e : Execution) → (settle e (apply op e)).budget ≡ e.budget
unfolding apply
settle-budget op e = ground arith

-- Whatever is called, in whatever order, an execution that began within its budget stays within
-- it, and the budget stays as it was.
pub run-IsThrifty :
    (ops : List Operation) (e : Execution)
    → IsThrifty e
    → IsThrifty (run ops e) × ((run ops e).budget ≡ e.budget)
unfolding run
run-IsThrifty [] e h = (h, refl)
run-IsThrifty (op ∷ ops) e h =
    let (thrifty, same) = run-IsThrifty ops (settle e (apply op e)) (settle-IsThrifty op e h) in
    (thrifty, same ∙ settle-budget op e)
