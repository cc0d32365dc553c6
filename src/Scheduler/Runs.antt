-- ===== src/Scheduler/Runs.antt =====
-- scheduler/scheduler.cpp: the states that the scheduler can be in. The driver calls the handlers
-- one at a time and in any order; the version to deploy may change between the calls.
pub mod Tracked
pub mod Kept
use mesos_framework.Base.{ℕ, String, ◌≡◌, List, Option, some}
use mesos_framework.Flags.{Flags}
use mesos_framework.Proto.{SchedulerState, ProbeRequest, ProbeResponse}
use mesos_framework.Mesos.{Offer, Call, TaskStatus, ResourceOps}
use mesos_framework.Scheduler.State.{Scheduler, quobyte_scheduler}
use mesos_framework.Scheduler.Offers.{resource_offers}
use mesos_framework.Scheduler.Status.{status_update}
use mesos_framework.Scheduler.Probe.{framework_message}

-- One call of a handler; an abort is no step.
pub data Step {ℓ} {R : Type ℓ} (flags : Flags) (ops : ResourceOps R)
    (encode_request : ProbeRequest → String) (decode_response : String → Option ProbeResponse)
    : Scheduler R → Scheduler R → Type ℓ where
  offers :
      {s s' : Scheduler R} (persisted : SchedulerState) (os : List (ℕ × Offer R))
      (calls : List (Call R))
      → resource_offers flags ops persisted encode_request os s ≡ some (s', calls)
      → Step flags ops encode_request decode_response s s'
  update :
      {s s' : Scheduler R} (persisted : SchedulerState) (now : ℕ) (status : TaskStatus)
      → (status_update persisted now status s).0 ≡ s'
      → Step flags ops encode_request decode_response s s'
  message :
      {s s' : Scheduler R} (now : ℕ) (slave_id payload : String)
      → framework_message decode_response now slave_id payload s ≡ s'
      → Step flags ops encode_request decode_response s s'

-- The states after any number of calls, from the one that the constructor leaves.
pub data Reachable {ℓ} {R : Type ℓ} (flags : Flags) (ops : ResourceOps R)
    (encode_request : ProbeRequest → String) (decode_response : String → Option ProbeResponse)
    : Scheduler R → Type ℓ where
  start :
      {s : Scheduler R}
      → quobyte_scheduler flags ops ≡ some s
      → Reachable flags ops encode_request decode_response s
  next :
      {s s' : Scheduler R}
      → Reachable flags ops encode_request decode_response s
      → Step flags ops encode_request decode_response s s'
      → Reachable flags ops encode_request decode_response s'
