-- ===== src/Scheduler/Active.antt =====
-- The active triggers and what `remount` schedules for them: `active_trigger_revisions` and
-- `remount` of runtime/scheduler.py.
use Prim.Native.String.{compare}
use Prim.Native.Nat.{Ordering}
use n4x_core.Prelude.{
  String, Bool, true, false, ◌||◌, not, Option, none, some, List, [], ◌∷◌, if◌then◌else◌,
}
use n4x_core.Graph.Records
use n4x_core.Graph.Records.{upsert_row}
use n4x_core.Kernel.Jobs.{
  Trigger, TriggerRevision, TriggerType, TriggerOverlapPolicy, TriggerMisfirePolicy,
}
use n4x_core.Scheduler.State.{TriggerGraph, application_allows_triggers}

abbrev pub text_le : String → String → Bool
text_le a b = elim (compare a b) [ Ordering.gt ↦ false | _ ↦ true ]

abbrev pub insert_by_id : TriggerRevision → List TriggerRevision → List TriggerRevision
insert_by_id t [] = t ∷ []
insert_by_id t (u ∷ us) = if text_le t.id u.id then t ∷ u ∷ us else u ∷ insert_by_id t us

abbrev pub sorted_by_id : List TriggerRevision → List TriggerRevision
sorted_by_id [] = []
sorted_by_id (t ∷ ts) = insert_by_id t (sorted_by_id ts)

abbrev pub active_revision_of : TriggerGraph → Option String → Option TriggerRevision
active_revision_of g none = none
active_revision_of g (some id) = Records.get g.trigger_revisions id

abbrev pub keep_allowed :
    TriggerGraph → Option TriggerRevision → List TriggerRevision → List TriggerRevision
keep_allowed g none rest = rest
keep_allowed g (some t) rest = if application_allows_triggers g t then t ∷ rest else rest

abbrev pub allowed_revisions : TriggerGraph → List Trigger → List TriggerRevision
allowed_revisions g [] = []
allowed_revisions g (trigger ∷ rest) =
    keep_allowed g (active_revision_of g trigger.active_revision_id) (allowed_revisions g rest)

unfoldable pub active_trigger_revisions : TriggerGraph → List TriggerRevision
active_trigger_revisions g = sorted_by_id (allowed_revisions g (Records.values g.triggers))

-- One `add_job` of `remount`: the trigger's id, its cron line, and whether missed runs coalesce.
pub record ScheduledJob : Type 0 where
  pub id : String
  pub cron : String
  pub coalesce : Bool

abbrev pub is_schedule : TriggerType → Bool
is_schedule TriggerType.schedule = true
is_schedule _ = false

abbrev pub is_event : TriggerType → Bool
is_event TriggerType.event = true
is_event _ = false

abbrev pub is_run_once : TriggerMisfirePolicy → Bool
is_run_once TriggerMisfirePolicy.run_once = true
is_run_once _ = false

abbrev pub is_skip : TriggerMisfirePolicy → Bool
is_skip TriggerMisfirePolicy.skip = true
is_skip _ = false

abbrev pub is_skip_if_running : TriggerOverlapPolicy → Bool
is_skip_if_running TriggerOverlapPolicy.skip_if_running = true
is_skip_if_running _ = false

-- A missing or empty cron line adds nothing.
abbrev pub with_cron : TriggerRevision → Option String → List ScheduledJob → List ScheduledJob
with_cron t none rest = rest
with_cron t (some String.[]) rest = rest
with_cron t (some (String.◌∷◌ c s)) rest =
    record { id = t.id; cron = String.◌∷◌ c s; coalesce = is_run_once t.misfire_policy } ∷ rest

abbrev pub scheduled_jobs : List TriggerRevision → List ScheduledJob
scheduled_jobs [] = []
scheduled_jobs (t ∷ ts) =
    let rest = scheduled_jobs ts in
    if not t.enabled || not (is_schedule t.trigger_type)
    then rest
    else with_cron t t.config_cron rest

-- What `remount` mounts beside the due-work job.
unfoldable pub remount : TriggerGraph → List ScheduledJob
remount g = scheduled_jobs (active_trigger_revisions g)
