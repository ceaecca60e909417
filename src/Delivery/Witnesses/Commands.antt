-- ===== src/Delivery/Witnesses/Commands.antt =====
-- The workflow dispatcher at concrete inputs.
use mvp_master.Base.{ℕ, String, ◌≡◌, refl, none, some, [], ◌∷◌, List, select, take, nat_eq}
use mvp_master.Exec.{ok, err}
use mvp_master.Contracts.{Uuid, Time}
use mvp_master.Delivery.Dispatcher.{
  Client, WorkflowCommandRow, Commands, rpc_error, send, dispatch, turns,
}
use mvp_master.Delivery.Dispatcher.Batches.{
  send_all, marked, kept_or_marked, is_waiting, refused_command_blocks, dispatch_in_order,
}

-- A client that keeps the executions it was called for, and knows no workflow to cancel.
abbrev client : Client (List Uuid)
client = record {
  start_workflow = λ x o t. (ok tt, x ∷ t);
  signal_approve = λ x actor t. (ok tt, x ∷ t);
  signal_cancel = λ x actor t. (err (rpc_error "workflow execution already completed"), t);
}

abbrev command : ℕ → Uuid → String → WorkflowCommandRow
command k x name = record {
  id = k;
  organization_id = 2;
  execution_id = x;
  command = name;
  actor_subject = some "ann";
  dispatched_at = none;
}

abbrev sent : WorkflowCommandRow
sent = record (command 1 10 "START") { dispatched_at = some 5 }

abbrev table : Commands
table = sent ∷ command 2 10 "CANCEL" ∷ command 3 11 "START" ∷ []

abbrev times : ℕ → Time
times k = 9

refused_command_blocks_example : (turns client times 3 (table, [])).0 ≡ table
unfolding send
refused_command_blocks_example =
    refused_command_blocks client times (command 2 10 "CANCEL") refl (λ t. tt)
      (command 3 11 "START" ∷ []) 3 (sent ∷ []) [] (refl, tt)

abbrev starts : Commands
starts = sent ∷ command 2 11 "START" ∷ command 3 11 "APPROVE" ∷ []

dispatch_in_order_example :
    let (r, t') = send_all client times (take 50 (select is_waiting starts)) [] in
    dispatch client times (starts, [])
    ≡ (r, (kept_or_marked client times starts (marked client times 50 starts) r, t'))
dispatch_in_order_example = dispatch_in_order client times starts []
