-- ===== src/Scheduler/Poller.antt =====
-- `ScheduledCallPoller.pollOnce` of kits/debrief/src/scheduler/index.ts. The provider, or the job or
-- trigger in its place, and the two callbacks are functions that may throw. What other tasks do to
-- the table while the provider is awaited is a function on the table.
use kitstack.Base.{ℕ, Option, none, some, Text, Result, ok, err, ◌>>=◌, ◌>>◌}
use kitstack.Scheduler.Types.{
  ScheduledCallRecord, ClaimDueInput, CompleteCallInput, FailCallInput, Platform,
}
use kitstack.Scheduler.Table.{Table, Answer}
use kitstack.Scheduler.Store.{claim_due, complete, fail}

pub record ScheduledCallPoller : Type 0 where
  pub org_id : Text
  pub worker_id : Text
  pub lease_ms : ℕ
  pub start_call : ScheduledCallRecord → Result Text (Option Text)
  pub on_provider_start : ScheduledCallRecord → Option Text → Result Text (Unit {0})
  pub on_provider_failure : ScheduledCallRecord → Text → Result Text (Unit {0})

-- What happens around a poll: the clock's readings, and the other tasks.
pub record Surroundings : Type 0 where
  pub claimed_at : Text
  pub completed_at : Text
  pub failed_at : Text
  pub meanwhile : Table → Table

module _ (platform : Platform) (poller : ScheduledCallPoller) (around : Surroundings) where
  abbrev pub claim_input : ClaimDueInput
  claim_input = record {
    org_id = poller.org_id;
    now = around.claimed_at;
    worker_id = poller.worker_id;
    lease_ms = some poller.lease_ms;
  }

  abbrev pub complete_input : ScheduledCallRecord → Option Text → CompleteCallInput
  complete_input job provider_call_id = record {
    org_id = job.org_id;
    scheduled_call_id = job.scheduled_call_id;
    worker_id = poller.worker_id;
    provider_call_id = provider_call_id;
    now = around.completed_at;
  }

  abbrev pub fail_input : ScheduledCallRecord → Text → FailCallInput
  fail_input job reason = record {
    org_id = job.org_id;
    scheduled_call_id = job.scheduled_call_id;
    worker_id = poller.worker_id;
    reason = reason;
    now = around.failed_at;
  }

  -- The `catch`, from `operations.fail` on.
  unfoldable pub report :
      ScheduledCallRecord → Text → Answer ScheduledCallRecord → Answer (Option ScheduledCallRecord)
  report job reason (err message, table) = (err message, table)
  report job reason (ok failed, table) =
      (poller.on_provider_failure job reason >> ok (some failed), table)

  unfoldable pub give_up : ScheduledCallRecord → Text → Table → Answer (Option ScheduledCallRecord)
  unfolding report fail
  give_up job reason table = report job reason (fail (fail_input job reason) table)

  unfoldable pub conclude :
      ScheduledCallRecord → Answer ScheduledCallRecord → Answer (Option ScheduledCallRecord)
  unfolding give_up
  conclude job (ok record_, table) = (ok (some record_), table)
  conclude job (err reason, table) = give_up job reason table

  -- The provider's answer, with `onProviderStart`.
  unfoldable pub invoke : ScheduledCallRecord → Result Text (Option Text)
  invoke job = poller.start_call job >>= λ provider_call_id.
      (poller.on_provider_start job provider_call_id >> ok provider_call_id)

  unfoldable pub after_invoke :
      ScheduledCallRecord → Result Text (Option Text) → Table → Answer (Option ScheduledCallRecord)
  unfolding conclude give_up complete
  after_invoke job (ok provider_call_id) table =
      conclude job (complete (complete_input job provider_call_id) table)
  after_invoke job (err reason) table = give_up job reason table

  unfoldable pub with_claim :
      Answer (Option ScheduledCallRecord) → Answer (Option ScheduledCallRecord)
  unfolding after_invoke invoke
  with_claim (err message, table) = (err message, table)
  with_claim (ok none, table) = (ok none, table)
  with_claim (ok (some job), table) = after_invoke job (invoke job) (around.meanwhile table)

  unfoldable pub poll_once : Table → Answer (Option ScheduledCallRecord)
  unfolding with_claim claim_due
  poll_once table = with_claim (claim_due platform claim_input table)
