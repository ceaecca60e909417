-- ===== src/Delivery/Execution/Lifecycle.antt =====
-- The state machine of `Execution` (domain/models.py): what a run of its methods can reach.
use mathlib.Core.Path.{subst}
use mathlib.Core.List.{Sublistᴰ, map}
use mvp_master.Base.{
  ◌+◌, ◌≡◌, refl, ◌≢◌, ◌⊎◌, inl, inr, Bool, true, false, is_some, Option, none, some, List, [], ◌∷◌,
  map, arith,
}
use mvp_master.Contracts.{ExternalReference}
use mvp_master.Exec.{Result, ok, err}
use mvp_master.Delivery.Models.{
  DeliveryError, ApprovalStatus, approved, ExecutionStatus, awaiting_approval, queued, provisioning,
  planning, awaiting_plan_approval, building, verifying, repairing, delivering, delivered, failed,
  cancelled, awaiting_human, Execution, ApprovalStatus,
}
use mvp_master.Delivery.Execution.Operations.{
  Operation, apply, settle, run, one_more, successes, one_more_lem, succeeded, keep_call,
}

-- One call of a method, seen from the status: the guard of the method and what it sets. A call
-- that raises, and one that does not touch the status, stays.
data Edge : Operation → ExecutionStatus → ExecutionStatus → Type 0 where
  stays : {op : Operation} {s t : ExecutionStatus} → t ≡ s → Edge op s t
  approves :
      {s t : ExecutionStatus} → s ≡ awaiting_approval → t ≡ queued → Edge Operation.approve s t
  provisions :
      {s t : ExecutionStatus}
      → s ≡ queued
      → t ≡ provisioning
      → Edge Operation.start_provisioning s t
  plans :
      {s t : ExecutionStatus} → s ≡ provisioning → t ≡ planning → Edge Operation.start_planning s t
  builds :
      {s t : ExecutionStatus}
      → (s ≡ planning) ⊎ (s ≡ repairing)
      → t ≡ building
      → Edge Operation.start_building s t
  verifies :
      {s t : ExecutionStatus} → s ≡ building → t ≡ verifying → Edge Operation.start_verification s t
  repairs :
      {s t : ExecutionStatus}
      → s ≡ verifying
      → (t ≡ repairing) ⊎ (t ≡ awaiting_human)
      → Edge Operation.request_repair s t
  delivers :
      {s t : ExecutionStatus} → s ≡ verifying → t ≡ delivering → Edge Operation.start_delivery s t
  hands_over :
      {r : ExternalReference} {s t : ExecutionStatus}
      → s ≡ delivering
      → t ≡ delivered
      → Edge (Operation.deliver r) s t
  cancels : {s t : ExecutionStatus} → t ≡ cancelled → Edge Operation.cancel s t
  fails : {s t : ExecutionStatus} → t ≡ failed → Edge Operation.fail s t

apply-Edge : (op : Operation) (e : Execution) → Edge op e.status (settle e (apply op e)).status
unfolding apply
apply-Edge Operation.approve e = grind (arith, Edge.stays, Edge.approves)
apply-Edge Operation.start_provisioning e = grind (arith, Edge.stays, Edge.provisions)
apply-Edge Operation.start_planning e = grind (arith, Edge.stays, Edge.plans)
apply-Edge Operation.start_building e = grind (arith, Edge.stays, Edge.builds)
apply-Edge Operation.start_verification e = grind (arith, Edge.stays, Edge.verifies)
apply-Edge Operation.request_repair e = grind (arith, Edge.stays, Edge.repairs)
apply-Edge Operation.start_delivery e = grind (arith, Edge.stays, Edge.delivers)
apply-Edge (Operation.deliver r) e = grind (arith, Edge.stays, Edge.hands_over)
apply-Edge (Operation.record_usage u) e = grind (arith, Edge.stays)
apply-Edge Operation.request_cancellation e = grind (arith, Edge.stays)
apply-Edge Operation.cancel e = grind (arith, Edge.stays, Edge.cancels)
apply-Edge Operation.fail e = grind (arith, Edge.stays, Edge.fails)

-- The calls that an execution has to get through, in order.
pub data Stage : Type 0 where
  approval provisioned planned built verified delivery handed_over : Stage
  elsewhere : Stage

abbrev pub stage : Operation → Stage
stage Operation.approve = approval
stage Operation.start_provisioning = provisioned
stage Operation.start_planning = planned
stage Operation.start_building = built
stage Operation.start_verification = verified
stage Operation.start_delivery = delivery
stage (Operation.deliver r) = handed_over
stage _ = elsewhere

-- What is left of the road to `delivered`; `none` where no road leads there.
abbrev pub road : ExecutionStatus → Option (List Stage)
road awaiting_approval =
    some (approval ∷ provisioned ∷ planned ∷ built ∷ verified ∷ delivery ∷ handed_over ∷ [])
road queued = some (provisioned ∷ planned ∷ built ∷ verified ∷ delivery ∷ handed_over ∷ [])
road provisioning = some (planned ∷ built ∷ verified ∷ delivery ∷ handed_over ∷ [])
road planning = some (built ∷ verified ∷ delivery ∷ handed_over ∷ [])
road repairing = some (built ∷ verified ∷ delivery ∷ handed_over ∷ [])
road building = some (verified ∷ delivery ∷ handed_over ∷ [])
road verifying = some (delivery ∷ handed_over ∷ [])
road delivering = some (handed_over ∷ [])
road delivered = some []
road awaiting_plan_approval = none
road failed = none
road cancelled = none
road awaiting_human = none

abbrev Covers : Option (List Stage) → List Stage → Type 0
Covers none l = ⊥
Covers (some r) l = Sublistᴰ r l

pub elsewhere-Covers :
    (r : Option (List Stage)) (x : Stage) (l : List Stage) → Covers r l → Covers r (x ∷ l)
elsewhere-Covers none x l h = h
elsewhere-Covers (some r) x l h = Sublistᴰ.cons h

tail_covers {ℓ} : {A : Type ℓ} {x : A} {xs l : List A} → Sublistᴰ (x ∷ xs) l → Sublistᴰ xs l
tail_covers (Sublistᴰ.cons h) = Sublistᴰ.cons (tail_covers h)
tail_covers (Sublistᴰ.cons-cons p h) = Sublistᴰ.cons h

Edge-Covers :
    {op : Operation} {s t : ExecutionStatus} (l : List Stage)
    → Edge op s t
    → Covers (road t) l
    → Covers (road s) (stage op ∷ l)
Edge-Covers {op} {s} l (stays p) h = elsewhere-Covers (road s) (stage op) l (rw p at h)
Edge-Covers l (approves p q) h = rw p (Sublistᴰ.cons-cons refl (rw q at h))
Edge-Covers l (provisions p q) h = rw p (Sublistᴰ.cons-cons refl (rw q at h))
Edge-Covers l (plans p q) h = rw p (Sublistᴰ.cons-cons refl (rw q at h))
Edge-Covers l (builds (inl p) q) h = rw p (Sublistᴰ.cons-cons refl (rw q at h))
Edge-Covers l (builds (inr p) q) h = rw p (Sublistᴰ.cons-cons refl (rw q at h))
Edge-Covers l (verifies p q) h = rw p (Sublistᴰ.cons-cons refl (rw q at h))
Edge-Covers l (repairs p (inl q)) h = rw p (Sublistᴰ.cons (tail_covers (tail_covers (rw q at h))))
Edge-Covers l (repairs p (inr q)) h = absurd (rw q at h)
Edge-Covers l (delivers p q) h = rw p (Sublistᴰ.cons-cons refl (rw q at h))
Edge-Covers l (hands_over p q) h = rw p (Sublistᴰ.cons-cons refl (rw q at h))
Edge-Covers l (cancels q) h = absurd (rw q at h)
Edge-Covers l (fails q) h = absurd (rw q at h)

settle-Covers :
    (op : Operation) (e : Execution) (r : Result DeliveryError Execution) (l : List Operation)
    → Edge op e.status (settle e r).status
    → Covers (road (settle e r).status) (map stage l)
    → Covers (road e.status) (map stage (keep_call op r l))
settle-Covers op e (ok e') l edge h = Edge-Covers (map stage l) edge h
settle-Covers op e (err x) l edge h = h

run-Covers :
    (ops : List Operation) (e : Execution)
    → (run ops e).status ≡ delivered
    → Covers (road e.status) (map stage (succeeded ops e))
unfolding run succeeded
run-Covers [] e h = rw h Sublistᴰ.slnil
run-Covers (op ∷ ops) e h =
    let e' = settle e (apply op e) in
    settle-Covers op e (apply op e) (succeeded ops e') (apply-Edge op e) (run-Covers ops e' h)

-- When a run takes an execution that waits for approval to `delivered`, its successful calls have
-- among them, in this order: an approval, the starts of provisioning, planning, building,
-- verification and delivery, and the hand-over with the reference.
pub delivered_needs_all :
    (ops : List Operation) (e : Execution)
    → e.status ≡ awaiting_approval
    → (run ops e).status ≡ delivered
    → Sublistᴰ
        (approval ∷ provisioned ∷ planned ∷ built ∷ verified ∷ delivery ∷ handed_over ∷ [])
        (map stage (succeeded ops e))
delivered_needs_all ops e start end =
    subst (λ s. Covers (road s) (map stage (succeeded ops e))) start (run-Covers ops e end)

-- From failed, cancelled or awaiting-human nothing is delivered any more.
pub dead_end :
    (ops : List Operation) (e : Execution)
    → (e.status ≡ failed) ⊎ (e.status ≡ cancelled) ⊎ (e.status ≡ awaiting_human)
    → (run ops e).status ≢ delivered
dead_end ops e (inl p) end = rw p at (run-Covers ops e end)
dead_end ops e (inr (inl p)) end = rw p at (run-Covers ops e end)
dead_end ops e (inr (inr p)) end = rw p at (run-Covers ops e end)

-- The statuses past the approval, and what they carry.
abbrev is_approved : ApprovalStatus → Bool
is_approved approved = true
is_approved _ = false

abbrev needs_approval : ExecutionStatus → Bool
needs_approval awaiting_approval = false
needs_approval failed = false
needs_approval cancelled = false
needs_approval _ = true

abbrev holds_reference : ExecutionStatus → Bool
holds_reference delivered = true
holds_reference _ = false

-- Past the approval an execution is approved; a delivered one has its reference, and one with a
-- reference has been delivered, or cancelled after that.
pub record IsSound (e : Execution) : Type 0 where
  pub approved_past : needs_approval e.status ≡ true → is_approved e.approval_status ≡ true
  pub referenced : e.status ≡ delivered → is_some e.result_reference ≡ true
  pub reference_late :
      is_some e.result_reference ≡ true → (e.status ≡ delivered) ⊎ (e.status ≡ cancelled)
  pub cancelled_on_request : e.status ≡ cancelled → e.cancellation_requested ≡ true

pub settle-IsSound : (op : Operation) (e : Execution) → IsSound e → IsSound (settle e (apply op e))
unfolding apply
settle-IsSound op e h = ground arith

-- Whatever is called, in whatever order, an execution stays sound: approved if it is past the
-- approval, cancelled only on request, and with a reference if it is delivered.
pub run-IsSound : (ops : List Operation) (e : Execution) → IsSound e → IsSound (run ops e)
unfolding run
run-IsSound [] e h = h
run-IsSound (op ∷ ops) e h = run-IsSound ops (settle e (apply op e)) (settle-IsSound op e h)

settle-version :
    (op : Operation) (e : Execution)
    → (settle e (apply op e)).version ≡ e.version + one_more (apply op e) 0
unfolding apply
settle-version op e = ground arith

-- The version of an execution counts the calls that succeeded.
pub run-version :
    (ops : List Operation) (e : Execution) → (run ops e).version ≡ e.version + successes ops e
unfolding run successes
run-version [] e = omega arith
run-version (op ∷ ops) e = omega (
  arith,
  run-version ops (settle e (apply op e)),
  settle-version op e,
  one_more_lem (apply op e) (successes ops (settle e (apply op e))),
)
