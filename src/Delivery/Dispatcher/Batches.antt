-- ===== src/Delivery/Dispatcher/Batches.antt =====
-- What the dispatcher (entrypoints/workflow_dispatcher.py of the delivery service) does to the table
-- and to Temporal.
use mathlib.Core.Path.{subst}
use mvp_master.Base.{
  if◌then◌else◌, ℕ, zero, suc, ◌≡◌, refl, ap, ◌∙◌, Bool, true, String, ◌==◌, Option, none, some,
  is_some, [], ◌∷◌, ◌++◌, string_eq, Each, select, not, ⊤, Option-cases, inl, inr, take, arith,
}
use mvp_master.Exec.{Exec, Result, ok, err, pure, ◌>>=◌, bind-step}
use mvp_master.Dict.{Dict, get}
use mvp_master.Contracts.{Time}
use mvp_master.Delivery.Dispatcher.{
  WorkflowCommandRow, Commands, Client, TemporalError, send, dispatch_each, dispatch, turns, step,
  cons, mark, committed, suppress_started, actor_or_unknown, workflow_already_started, rpc_error,
}

abbrev pub IsDispatched : WorkflowCommandRow → Type 0
IsDispatched row = is_some row.dispatched_at ≡ true

-- The loop raised.
abbrev Raised : {A : Type 0} → Result TemporalError A → Type 0
Raised (ok a) = ⊥
Raised (err e) = Unit

module _ {T : Type 0} (client : Client T) (times : ℕ → Time) where
  bind-Raised :
      {A B : Type 0} (m : Exec TemporalError T A) (f : A → Exec TemporalError T B) (t : T)
      → Raised (m t).0
      → Raised ((m >>= f) t).0
  bind-Raised m f t h =
      bind-step (λ out. Raised out.0) f t m (λ e u p. tt)
        (λ a u p. absurd (subst (λ out. Raised out.0) p h))

  committed-Raised :
      (before : Commands) (out : Result TemporalError Commands × T)
      → Raised out.0
      → (committed client before out).1.0 ≡ before
  committed-Raised before (ok rows, t) h = absurd h
  committed-Raised before (err e, t) h = refl

  module _ (row : WorkflowCommandRow) (waits : row.dispatched_at ≡ none)
      (refused : (t : T) → Raised (send client row t).0) (after : Commands) where
    dispatch_each-Raised :
        (room : ℕ) (before : Commands) (t : T)
        → Each IsDispatched before
        → Raised (dispatch_each client times (suc room) (before ++ row ∷ after) t).0
    unfolding dispatch_each
    dispatch_each-Raised room [] t h =
        rw (waits, step)
          (bind-Raised (send client row)
            (λ _.
              cons client (mark client (times row.id) row) (dispatch_each client times room after))
            t (refused t))
    dispatch_each-Raised room (x ∷ before) t (done, h) = elim (Option-cases x.dispatched_at) [
      | inl waiting ↦ absurd (cc)
      | inr (at, closed) ↦
          rw (closed, step)
            (bind-Raised (dispatch_each client times (suc room) (before ++ row ∷ after))
              (λ rows. pure (record x { dispatched_at = some at } ∷ rows)) t
              (dispatch_each-Raised room before t h))
    ]

    dispatch_unchanged :
        (before : Commands) (t : T)
        → Each IsDispatched before
        → (dispatch client times (before ++ row ∷ after, t)).1.0 ≡ before ++ row ∷ after
    unfolding dispatch
    dispatch_unchanged before t h =
        committed-Raised (before ++ row ∷ after)
          (dispatch_each client times 50 (before ++ row ∷ after) t)
          (dispatch_each-Raised 49 before t h)

    -- When the first command that is not dispatched is one that Temporal refuses at all times, the
    -- table stays as it is through any number of turns and restarts: neither that command nor any
    -- after it is ever marked as dispatched, whatever the others are.
    pub refused_command_blocks :
        (n : ℕ) (before : Commands) (t : T)
        → Each IsDispatched before
        → (turns client times n (before ++ row ∷ after, t)).0 ≡ before ++ row ∷ after
    unfolding turns
    refused_command_blocks zero before t h = refl
    refused_command_blocks (suc n) before t h =
        let rows = before ++ row ∷ after in
        let t' = (dispatch client times (rows, t)).1.1 in
        ap (λ (c : Commands). (turns client times n (c, t')).0) (dispatch_unchanged before t h)
        ∙ refused_command_blocks n before t' h

-- What a command asks of Temporal, by its text
pub data Request : Type 0 where
  starts approves cancels : Request

abbrev pub requests : Dict String Request
requests = ("START", starts) ∷ ("APPROVE", approves) ∷ ("CANCEL", cancels) ∷ []

-- Who signals
abbrev pub actor_of : Option String → String
actor_of none = "unknown"
actor_of (some actor) = if actor == "" then "unknown" else actor

-- A workflow that has started already is as good as one that starts.
abbrev pub unless_started : {T : Type 0} → Result TemporalError ⊤ × T → Result TemporalError ⊤ × T
unless_started (err workflow_already_started, t) = (ok tt, t)
unless_started (err (rpc_error m), t) = (err (rpc_error m), t)
unless_started (ok x, t) = (ok tt, t)

-- Whether a command is not dispatched yet.
abbrev pub is_waiting : WorkflowCommandRow → Bool
is_waiting row = not (is_some row.dispatched_at)

module _ {T : Type 0} (client : Client T) (times : ℕ → Time) where
  -- What Temporal is told for a command
  abbrev pub told : Option Request → WorkflowCommandRow → Exec TemporalError T ⊤
  told none row t = (ok tt, t)
  told (some starts) row t =
      unless_started (client.start_workflow row.execution_id row.organization_id t)
  told (some approves) row t = client.signal_approve row.execution_id (actor_of row.actor_subject) t
  told (some cancels) row t = client.signal_cancel row.execution_id (actor_of row.actor_subject) t

  suppress_started-unless :
      (out : Result TemporalError ⊤ × T) (t : T)
      → suppress_started (λ _. out) t ≡ unless_started out
  suppress_started-unless (ok x, u) t = refl
  suppress_started-unless (err workflow_already_started, u) t = refl
  suppress_started-unless (err (rpc_error m), u) t = refl

  actor_of_lem : (actor : Option String) → actor_or_unknown actor ≡ actor_of actor
  actor_of_lem none = refl
  actor_of_lem (some actor) = refl

  send-told :
      (row : WorkflowCommandRow) (t : T) → send client row t ≡ told (get requests row.command) row t
  unfolding send get
  send-told row t = ground (
    arith,
    string_eq.beq_iff row.command "START",
    string_eq.beq_iff row.command "APPROVE",
    string_eq.beq_iff row.command "CANCEL",
    string_eq.beq_iff "START" row.command,
    string_eq.beq_iff "APPROVE" row.command,
    string_eq.beq_iff "CANCEL" row.command,
    suppress_started-unless (client.start_workflow row.execution_id row.organization_id t) t,
    actor_of_lem row.actor_subject,
  )

  -- Telling Temporal commands one after the other, up to one that is refused
  abbrev pub send_all : Commands → Exec TemporalError T ⊤
  send_all [] t = (ok tt, t)
  send_all (row ∷ rows) t = (told (get requests row.command) row >>= λ _. send_all rows) t

  abbrev mark_or : Option Time → ℕ → WorkflowCommandRow → Commands → Commands → Commands
  mark_or none room row taken passed = record row { dispatched_at = some (times row.id) } ∷ taken
  mark_or (some at) room row taken passed = row ∷ passed

  -- The table with the first so many waiting commands marked
  abbrev pub marked : ℕ → Commands → Commands
  marked zero rows = rows
  marked (suc room) [] = []
  marked (suc room) (row ∷ rows) =
      mark_or row.dispatched_at room row (marked room rows) (marked (suc room) rows)

  -- An answer, with the table that goes with a good one
  abbrev answered : Commands → Result TemporalError ⊤ × T → Result TemporalError Commands × T
  answered rows (ok _, t) = (ok rows, t)
  answered rows (err e, t) = (err e, t)

  cons-answered :
      (row : WorkflowCommandRow) (rows : Commands) (rest : Exec TemporalError T Commands) (u : T)
      (out : Result TemporalError ⊤ × T)
      → rest u ≡ answered rows out
      → cons client row rest u ≡ answered (row ∷ rows) out
  cons-answered row rows rest u (ok _, t) p = ap (λ z. ((λ _. z) >>= λ l. pure (row ∷ l)) u) p
  cons-answered row rows rest u (err e, t) p = ap (λ z. ((λ _. z) >>= λ l. pure (row ∷ l)) u) p

  sent-answered :
      (row : WorkflowCommandRow) (rows l : Commands) (rest : Exec TemporalError T Commands) (t : T)
      (out : Result TemporalError ⊤ × T)
      → ((u : T) → rest u ≡ answered rows (send_all l u))
      → ((λ _. out) >>= λ _. cons client row rest) t
        ≡ answered (row ∷ rows) (((λ _. out) >>= λ _. send_all l) t)
  sent-answered row rows l rest t (ok _, u) p = cons-answered row rows rest u (send_all l u) (p u)
  sent-answered row rows l rest t (err e, u) p = refl

  step-answered :
      (d : Option Time) (room : ℕ) (row : WorkflowCommandRow) (rows : Commands) (t : T)
      → ((n : ℕ) (u : T)
          → dispatch_each client times n rows u
            ≡ answered (marked n rows) (send_all (take n (select is_waiting rows)) u))
      → step client d times row
          (dispatch_each client times room rows)
          (dispatch_each client times (suc room) rows)
          t
        ≡ answered (mark_or d room row (marked room rows) (marked (suc room) rows)) (
            send_all
              (take
                (suc room)
                (if not (is_some d) then row ∷ select is_waiting rows else select is_waiting rows))
              t)
  step-answered none room row rows t later =
      ap
        (λ out.
          ((λ _. out) >>= λ _.
          cons client (mark client (times row.id) row) (dispatch_each client times room rows))
            t)
        (send-told row t)
      ∙ sent-answered (mark client (times row.id) row) (marked room rows)
          (take room (select is_waiting rows)) (dispatch_each client times room rows) t
          (told (get requests row.command) row t) (later room)
  step-answered (some at) room row rows t later =
      cons-answered row (marked (suc room) rows) (dispatch_each client times (suc room) rows) t
        (send_all (take (suc room) (select is_waiting rows)) t) (later (suc room) t)

  dispatch_each-answered :
      (room : ℕ) (rows : Commands) (t : T)
      → dispatch_each client times room rows t
        ≡ answered (marked room rows) (send_all (take room (select is_waiting rows)) t)
  unfolding dispatch_each select
  dispatch_each-answered zero rows t = refl
  dispatch_each-answered (suc room) [] t = refl
  dispatch_each-answered (suc room) (row ∷ rows) t =
      step-answered row.dispatched_at room row rows t (λ n u. dispatch_each-answered n rows u)

  -- What the table is after an answer
  abbrev pub kept_or_marked : Commands → Commands → Result TemporalError ⊤ → Commands
  kept_or_marked rows marked (ok _) = marked
  kept_or_marked rows marked (err e) = rows

  committed-answered :
      (rows ms : Commands) (out : Result TemporalError ⊤ × T)
      → committed client rows (answered ms out) ≡ (out.0, (kept_or_marked rows ms out.0, out.1))
  committed-answered rows ms (ok _, t) = refl
  committed-answered rows ms (err e, t) = refl

  -- A turn takes the first fifty waiting commands in the order of their ids and tells Temporal of
  -- each: START starts the workflow, where one that has started already does no harm, APPROVE and
  -- CANCEL signal the actor, or "unknown", and any other text tells nothing; it ends at the first
  -- that is refused, whose error is the answer. If none is refused, exactly these rows get their
  -- `dispatched_at` and no other row changes; otherwise the table is as before.
  pub dispatch_in_order :
      (rows : Commands) (t : T)
      → let (r, t') = send_all (take 50 (select is_waiting rows)) t in
        dispatch client times (rows, t) ≡ (r, (kept_or_marked rows (marked 50 rows) r, t'))
  unfolding dispatch
  dispatch_in_order rows t =
      ap (committed client rows) (dispatch_each-answered 50 rows t)
      ∙ committed-answered rows (marked 50 rows) (send_all (take 50 (select is_waiting rows)) t)
