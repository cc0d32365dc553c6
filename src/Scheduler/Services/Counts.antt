-- ===== src/Scheduler/Services/Counts.antt =====
-- scheduler/scheduler.cpp: how many tasks of a name a start of services launches, and the state of
-- the services that all hosts share.
use mesos_framework.Base.{
  ℕ, ◌+◌, String, ◌≡◌, refl, ◌∙◌, ◌⊎◌, true, false, List, [], ◌∷◌, ◌++◌, some, arith, ◌==◌,
  if◌then◌else◌,
}
use mesos_framework.Flags.{Flags}
use mesos_framework.Proto.{ServiceState, not_running, running, SchedulerState}
use mesos_framework.Mesos.{TaskInfo, ResourceOps}
use mesos_framework.Scheduler.Task.{make_task}
use mesos_framework.Scheduler.State.{Scheduler, Service, api, s3, console, is_shared}
use mesos_framework.Scheduler.State.Fields.{task_name}
use mesos_framework.Scheduler.Services.{Round}

-- From one state and number of tasks to the next: nothing is launched, and the state stays, or
-- one task is launched of a service that was not running, and it is recorded as running.
abbrev pub LaunchesOnce : ServiceState → ℕ → ServiceState → ℕ → Type 0
LaunchesOnce v n v' n' =
    ((v' ≡ v) × (n' ≡ n)) ⊎ ((v.state ≡ not_running) × (v'.state ≡ running) × (n' ≡ n + 1))

pub LaunchesOnce-trans :
    (v v' v'' : ServiceState) (n n' n'' : ℕ)
    → LaunchesOnce v n v' n'
    → LaunchesOnce v' n' v'' n''
    → LaunchesOnce v n v'' n''
LaunchesOnce-trans v v' v'' n n' n'' h k = ground arith

pub LaunchesOnce-add :
    (v v' v'' : ServiceState) (n n' : ℕ)
    → LaunchesOnce v 0 v' n
    → LaunchesOnce v' 0 v'' n'
    → LaunchesOnce v 0 v'' (n + n')
LaunchesOnce-add v v' v'' n n' h k = ground arith

module _ {ℓ} {R : Type ℓ} where
  -- How many of the tasks have a name.
  abbrev pub count_named : String → List (TaskInfo R) → ℕ
  count_named name [] = 0
  count_named name (t ∷ ts) = (if t.name == name then 1 else 0) + count_named name ts

  pub count_named-append :
      (name : String) (xs ys : List (TaskInfo R))
      → count_named name (xs ++ ys) ≡ count_named name xs + count_named name ys
  count_named-append name [] ys = omega arith
  count_named-append name (x ∷ xs) ys = omega (arith, count_named-append name xs ys)

  -- The state of a service that all hosts share.
  abbrev pub shared_state : Service → Scheduler R → ServiceState
  shared_state api s = s.api_state
  shared_state s3 s = s.s3_state
  shared_state _ s = s.console_state

  pub make_task-name :
      (flags : Flags) (ops : ResourceOps R) (persisted : SchedulerState) (s : Scheduler R)
      (service_id name task_id host_name : String) (rpc_port http_port : ℕ) (slave_id : String)
      (task : TaskInfo R)
      → make_task flags ops persisted s service_id name task_id host_name rpc_port http_port
          slave_id
        ≡ some task
      → task.name ≡ name
  unfolding make_task
  make_task-name flags ops persisted s service_id name task_id host_name rpc_port http_port slave_id
        task e =
      ground arith

  abbrev pub RoundLaunches : Service → Round R → Round R → Type 0
  RoundLaunches service r r' =
      LaunchesOnce (shared_state service r.scheduler) (count_named (task_name service) r.tasks)
        (shared_state service r'.scheduler) (count_named (task_name service) r'.tasks)

-- No other task has the name of a service that all hosts share.
pub core_name-differs :
    (service : Service)
    → is_shared service ≡ true
    → (("quobyte-client" == task_name service) ≡ false)
      × (("quobyte-registry" == task_name service) ≡ false)
      × (("quobyte-metadata" == task_name service) ≡ false)
      × (("quobyte-data" == task_name service) ≡ false)
core_name-differs api h = (refl, refl, refl, refl)
core_name-differs s3 h = (refl, refl, refl, refl)
core_name-differs console h = (refl, refl, refl, refl)
core_name-differs _ h = cc

pub count_named_other {ℓ} :
    {R : Type ℓ} (name : String) (task : TaskInfo R) (ts : List (TaskInfo R))
    → (task.name == name) ≡ false
    → count_named name (ts ++ task ∷ []) ≡ count_named name ts
count_named_other name task ts h = count_named-append name ts (task ∷ []) ∙ rw h (omega arith)
