-- ===== src/Scheduler/Status/Kills.antt =====
-- scheduler/scheduler.cpp: which tasks `statusUpdate` kills.
use mesos_framework.Base.{
  ℕ, String, ◌≡◌, refl, ◌≢◌, ◌⊎◌, ◌↔◌, inl, inr, Bool, true, false, not, ◌&&◌, List, [], ◌∷◌, ◌++◌,
  ◌==◌, arith, ◌∙◌, ap, All, All-append, eq_iff, any,
}
use mesos_framework.Base.Text.{NoDash}
use mesos_framework.Proto.{
  DeviceType, same_type, ServiceTaskState, is_running, running, ServiceState, NodeState,
  SchedulerState,
}
use mesos_framework.Mesos.{TaskStatus, Call, kill_task}
use mesos_framework.Scheduler.Names.{id_on}
use mesos_framework.Scheduler.Policy.{is_terminal}
use mesos_framework.Scheduler.State.{
  Scheduler, Service, prober, registry, metadata, data_service, client, api, s3, console, is_shared,
}
use mesos_framework.Scheduler.State.Fields.{task_name, state_of, find-create_host}
use mesos_framework.Scheduler.Status.{
  is_up, has_device_for, service_should_run, judge_status, check_version, update_service,
  status_update,
}
use mesos_framework.Scheduler.Status.Routing.{status_update-update_service}
use mesos_framework.Scheduler.Status.Reports.{node_of, state_created}

-- The host is without what the service is for: a device of its kind, or a directory for the client.
abbrev pub LacksDevice : Service → NodeState → Type 0
LacksDevice registry node = All (λ d. d ≢ DeviceType.registry) node.device_type
LacksDevice metadata node = All (λ d. d ≢ DeviceType.metadata) node.device_type
LacksDevice data_service node = All (λ d. d ≢ DeviceType.data_device) node.device_type
LacksDevice client node = node.client_mount_point ≡ false
LacksDevice _ node = ⊥

same_type_iff : (t d : DeviceType) → (same_type t d ≡ false) ↔ (d ≢ t)
same_type_iff t d = ground arith

none_of_type :
    (t : DeviceType) (ds : List DeviceType) → (any (same_type t) ds ≡ false) ↔ All (λ d. d ≢ t) ds
none_of_type t [] = (λ e. tt, λ h. refl)
none_of_type t (d ∷ ds) =
    let head = same_type_iff t d in
    let (out, back) = none_of_type t ds in
    (λ e. (head.0 (ground arith), out (ground arith)), λ (h, hs). rw (head.1 h) (back hs))

lacks_iff :
    (service : Service) (node : NodeState)
    → (has_device_for service node ≡ false) ↔ LacksDevice service node
lacks_iff registry node = none_of_type DeviceType.registry node.device_type
lacks_iff metadata node = none_of_type DeviceType.metadata node.device_type
lacks_iff data_service node = none_of_type DeviceType.data_device node.device_type
lacks_iff client node = (λ e. e, λ e. e)
lacks_iff prober node = (λ e. cc, λ h. absurd h)
lacks_iff api node = (λ e. cc, λ h. absurd h)
lacks_iff s3 node = (λ e. cc, λ h. absurd h)
lacks_iff console node = (λ e. cc, λ h. absurd h)

-- A task is not wanted where the service already runs as another task, for a service that all
-- hosts share, or where the devices of the host are known and what the service is for is not there.
abbrev pub IsUnwanted : Service → NodeState → ServiceState → String → Type 0
IsUnwanted service node state task_id =
    ((is_shared service ≡ true) × (state.state ≡ running) × (state.task_id ≢ task_id))
    ⊎ ((node.device_types_valid ≡ true) × LacksDevice service node)

unwanted_iff :
    (shared runs same valid device : Bool)
    → ((not (shared && runs && not same) && not (valid && not device)) ≡ false)
      ↔ (((shared ≡ true) × (runs ≡ true) × (same ≡ false)) ⊎ ((valid ≡ true) × (device ≡ false)))
unwanted_iff shared runs same valid device = ground arith

is_running_iff : (t : ServiceTaskState) → (is_running t ≡ true) ↔ (t ≡ running)
is_running_iff t = ground arith

differs_iff : (a b : String) → ((a == b) ≡ false) ↔ (a ≢ b)
differs_iff a b = ground (arith, eq_iff a b)

pub service_should_run_iff :
    (service : Service) (node : NodeState) (state : ServiceState) (task_id : String)
    → (service_should_run service node state task_id ≡ false)
      ↔ IsUnwanted service node state task_id
unfolding service_should_run
service_should_run_iff service node state task_id =
    let (out, back) =
      unwanted_iff (is_shared service) (is_running state.state) (state.task_id == task_id)
        node.device_types_valid (has_device_for service node) in
    let lacks = lacks_iff service node in
    (
      λ e. elim (out e) [
        | inl (a, b, c) ↦ inl (a, (is_running_iff state.state).0 b, (differs_iff _ _).0 c)
        | inr (valid, h) ↦ inr (valid, lacks.0 h)
      ],
      λ u. elim u [
        | inl (a, b, c) ↦ back (inl (a, (is_running_iff state.state).1 b, (differs_iff _ _).1 c))
        | inr (valid, h) ↦ back (inr (valid, lacks.1 h))
      ],
    )

-- Everything is shut down, and the task is one that can be.
abbrev pub IsShutdown : SchedulerState → Service → TaskStatus → Type 0
IsShutdown persisted service status =
    (persisted.target_version ≡ "") × (service ≢ prober) × (is_terminal status.state ≡ false)

abbrev Kills {ℓ} : {R : Type ℓ} → String → Type 0 → List (Call R) → Type ℓ
Kills task_id When calls = All (λ c. c ≡ kill_task task_id) calls × ((calls ≢ []) ↔ When)

judge_status-Kills {ℓ} :
    (R : Type ℓ) (now : ℕ) (service : Service) (node : NodeState) (state : ServiceState)
    (status : TaskStatus)
    → Kills status.task_id
        ((is_up status.state ≡ true)
          × (service_should_run service node state status.task_id ≡ false))
        (judge_status {R = R} now service node state status).1
unfolding judge_status
judge_status-Kills R now service node state status =
    (ground arith, (λ e. ground arith, λ e. ground arith))

check_version-Kills {ℓ} :
    (R : Type ℓ) (persisted : SchedulerState) (service : Service) (status : TaskStatus)
    → Kills status.task_id
        (IsShutdown persisted service status)
        (check_version {R = R} persisted service status)
unfolding check_version
check_version-Kills R persisted service status = (
  ground arith,
  (
    λ e. ground (arith, eq_iff persisted.target_version ""),
    λ e. ground (arith, eq_iff persisted.target_version ""),
  ),
)

Kills-append {ℓ} :
    {R : Type ℓ} (task_id : String) {P Q : Type 0} (xs ys : List (Call R))
    → Kills task_id P xs
    → Kills task_id Q ys
    → Kills task_id (P ⊎ Q) (xs ++ ys)
Kills-append task_id [] ys h k =
    (k.0, (λ e. inr (k.1.0 e), λ w. elim w [ inl p ↦ absurd (h.1.1 p refl) | inr q ↦ k.1.1 q ]))
Kills-append task_id (x ∷ xs) ys h k = (
  All-append (λ c. c ≡ kill_task task_id) (x ∷ xs) ys h.0 k.0,
  (λ e. inl (h.1.0 (λ n. cc)), λ w. λ n. cc),
)

module _ {ℓ} {R : Type ℓ} (persisted : SchedulerState) (now : ℕ) (status : TaskStatus)
    (s : Scheduler R) (service : Service) (hostname : String)
    (named : status.task_id ≡ id_on (task_name service) hostname) (plain : NoDash hostname) where
  abbrev pub calls : List (Call R)
  calls = (status_update persisted now status s).1

  calls-append :
      calls
      ≡ (judge_status {R = R} now service
          (node_of hostname status.slave_id s)
          (state_of service hostname s)
          status).1
        ++ check_version persisted service status
  unfolding update_service
  calls-append =
      ap (λ r. r.1)
        (status_update-update_service persisted now status s service hostname named plain)
      ∙ rw
          (
            find-create_host hostname status.slave_id s,
            state_created persisted now status s service hostname named plain,
          )
          refl

  -- For a task of a known service, on a host whose name has no dash: an update kills no task but
  -- the one that it reports. It does so exactly where the task is reported up and is not wanted,
  -- or where no version is to be deployed and the task is not the prober and has not ended.
  pub status_update-kill_task :
      All (λ c. c ≡ kill_task status.task_id) calls
      × ((calls ≢ []) ↔ (
          ((is_up status.state ≡ true)
            × IsUnwanted service
                (node_of hostname status.slave_id s)
                (state_of service hostname s)
                status.task_id)
          ⊎ IsShutdown persisted service status))
  status_update-kill_task =
      let node = node_of hostname status.slave_id s in
      let state = state_of service hostname s in
      let unwanted = service_should_run_iff service node state status.task_id in
      let (all, (some_call, none_call)) =
        Kills-append status.task_id _ _ (judge_status-Kills R now service node state status)
          (check_version-Kills R persisted service status) in
      rw calls-append (
        all,
        (
          λ e. elim (some_call e) [ inl (up, w) ↦ inl (up, unwanted.0 w) | inr h ↦ inr h ],
          λ u. none_call (elim u [ inl (up, w) ↦ inl (up, unwanted.1 w) | inr h ↦ inr h ]),
        ),
      )
