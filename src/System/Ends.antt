-- ===== src/System/Ends.antt =====
-- What status updates do to the services that all hosts share.
use mesos_framework.Base.{
  ℕ, ◌+◌, ◌≤◌, String, ◌≡◌, refl, inl, inr, Bool, true, false, not, ◌&&◌, List, [], ◌∷◌, Option,
  none, some, arith, get_or, Option-cases, Bool-cases, if◌then◌else◌,
}
use mesos_framework.Base.Text.{rfind, substr, substr_from}
use mesos_framework.Base.Dict
use mesos_framework.Proto.{not_running, ServiceState, NodeState, SchedulerState}
use mesos_framework.Mesos.{TaskStatus, Call}
use mesos_framework.Scheduler.Policy.{is_terminal}
use mesos_framework.Scheduler.State.{
  Scheduler, Service, api, s3, console, is_shared, create_host, get_service, service_state,
  new_host,
}
use mesos_framework.Scheduler.Services.Counts.{shared_state}
use mesos_framework.Scheduler.Offers.Singletons.{
  launches, launches-append, shared_state-create_host,
}
use mesos_framework.Scheduler.Status.{
  is_up, owns, service_should_run, check_version, judge_status, write_state, update_service,
  update_found, update_at, status_update,
}
use mesos_framework.System.{Event, update}

-- A service that is known not to run can be launched.
abbrev pub can_start : ServiceState → ℕ
can_start v = elim v.state [ not_running ↦ 1 | _ ↦ 0 ]

abbrev same_shared : Service → Service → Bool
same_shared api api = true
same_shared s3 s3 = true
same_shared console console = true
same_shared _ _ = false

-- The status ends a task, and is not taken for a sign of life.
abbrev pub ends : TaskStatus → Bool
ends status = is_terminal status.state && not (is_up status.state)

abbrev pub names_at : Service → TaskStatus → Option ℕ → Bool
names_at service status none = false
names_at service status (some p) = elim (get_service (substr status.task_id 0 p)) [
  | none ↦ false
  | some named ↦ same_shared named service
]

-- How many of the events report the end of a task of the service, on whatever host.
abbrev pub ends_of {ℓ} : {R : Type ℓ} → Service → List (Event R) → ℕ
ends_of service [] = 0
ends_of service (update now status ∷ es) =
    (if names_at service status (rfind status.task_id) && ends status then 1 else 0)
    + ends_of service es
ends_of service (_ ∷ es) = ends_of service es

judge_status-can_start {ℓ} :
    (R : Type ℓ) (now : ℕ) (service : Service) (n : NodeState) (state : ServiceState)
    (status : TaskStatus)
    → can_start (get_or state (judge_status {R = R} now service n state status).0)
      ≤ can_start state + (if ends status then 1 else 0)
unfolding judge_status
judge_status-can_start R now service n state status = elim (Bool-cases (is_up status.state)) [
  | inl up ↦ elim (Bool-cases (service_should_run service n state status.task_id)) [
    | inr unwanted ↦ rw (up, unwanted) (omega arith)
    | inl wanted ↦ elim (Bool-cases (owns state status.task_id)) [
      | inl owned ↦ rw (up, wanted, owned) (omega arith)
      | inr other ↦ rw (up, wanted, other) (omega arith)
    ]
  ]
  | inr down ↦ elim (Bool-cases (is_terminal status.state && owns state status.task_id)) [
    | inl ended ↦
        let over : is_terminal status.state ≡ true = ground arith in
        rw (down, ended, over) (omega arith)
    | inr goes_on ↦ rw (down, goes_on) (omega arith)
  ]
]

-- Calls that launch nothing.
abbrev LaunchesNone {ℓ} : {R : Type ℓ} → List (Call R) → Type 0
LaunchesNone calls = (name : String) → launches name calls ≡ 0

judge_status-launches {ℓ} :
    (R : Type ℓ) (now : ℕ) (service : Service) (n : NodeState) (state : ServiceState)
    (status : TaskStatus)
    → LaunchesNone (judge_status {R = R} now service n state status).1
unfolding judge_status
judge_status-launches R now service n state status name = elim (Bool-cases (is_up status.state)) [
  | inl up ↦ elim (Bool-cases (service_should_run service n state status.task_id)) [
    | inr unwanted ↦ rw (up, unwanted) refl
    | inl wanted ↦ elim (Bool-cases (owns state status.task_id)) [
      | inl owned ↦ rw (up, wanted, owned) refl
      | inr other ↦ rw (up, wanted, other) refl
    ]
  ]
  | inr down ↦ elim (Bool-cases (is_terminal status.state && owns state status.task_id)) [
    | inl ended ↦ rw (down, ended) refl
    | inr goes_on ↦ rw (down, goes_on) refl
  ]
]

check_version-launches {ℓ} :
    (R : Type ℓ) (persisted : SchedulerState) (service : Service) (status : TaskStatus)
    → LaunchesNone (check_version {R = R} persisted service status)
unfolding check_version
check_version-launches R persisted service status name = ground arith

module _ {ℓ} {R : Type ℓ} where
  shared_state-write_state :
      (service named : Service) (hostname : String) (o : Option ServiceState) (s : Scheduler R)
      → is_shared service ≡ true
      → shared_state service (write_state named hostname o s) ≡ (
          if same_shared named service
          then get_or (shared_state service s) o
          else shared_state service s)
  shared_state-write_state service named hostname none s h = ground arith
  shared_state-write_state api api hostname (some v) s h = refl
  shared_state-write_state api _ hostname (some v) s h = refl
  shared_state-write_state s3 s3 hostname (some v) s h = refl
  shared_state-write_state s3 _ hostname (some v) s h = refl
  shared_state-write_state console console hostname (some v) s h = refl
  shared_state-write_state console _ hostname (some v) s h = refl
  shared_state-write_state _ _ hostname (some v) s h = cc

  service_state-shared :
      (service named : Service) (n : NodeState) (s : Scheduler R)
      → same_shared named service ≡ true
      → service_state named n s ≡ shared_state service s
  service_state-shared api api n s h = refl
  service_state-shared s3 s3 n s h = refl
  service_state-shared console console n s h = refl
  service_state-shared _ _ n s h = absurd (ground arith)

  update_service-can_start :
      (persisted : SchedulerState) (now : ℕ) (status : TaskStatus) (hostname : String)
      (service named : Service) (s : Scheduler R)
      → is_shared service ≡ true
      → can_start (shared_state service (update_service persisted now status hostname named s).0)
        ≤ can_start (shared_state service s)
          + (if same_shared named service && ends status then 1 else 0)
  unfolding update_service
  update_service-can_start persisted now status hostname service named s h =
      let n = get_or (new_host hostname status.slave_id) (Dict.find hostname s.nodes) in
      let written = (judge_status {R = R} now named n (service_state named n s) status).0 in
      elim (Bool-cases (same_shared named service)) [
        | inl same ↦
            rw
              (
                shared_state-write_state service named hostname written s h,
                same,
                ← service_state-shared service named n s same,
              )
              (judge_status-can_start R now named n (service_state named n s) status)
        | inr other ↦
            rw (shared_state-write_state service named hostname written s h, other) (omega arith)
      ]

  pub status_update-can_start :
      (persisted : SchedulerState) (now : ℕ) (status : TaskStatus) (service : Service)
      (s : Scheduler R)
      → is_shared service ≡ true
      → can_start (shared_state service (status_update persisted now status s).0)
        ≤ can_start (shared_state service s)
          + (if names_at service status (rfind status.task_id) && ends status then 1 else 0)
  unfolding status_update update_at update_found
  status_update-can_start persisted now status service s h =
      elim (Option-cases (rfind status.task_id)) [
        | inl no_dash ↦ rw no_dash (omega arith)
        | inr (p, cut) ↦
            let hostname = substr_from status.task_id (p + 1) in
            let made = create_host hostname status.slave_id s in
            let same = shared_state-create_host service hostname status.slave_id s in
            elim (Option-cases (get_service (substr status.task_id 0 p))) [
              | inl no_name ↦ rw (cut, names_at, no_name, same) (omega arith)
              | inr (named, known) ↦
                  let judged =
                    update_service-can_start persisted now status hostname service named made h in
                  rw (cut, names_at, known) (rw same at judged)
            ]
      ]

  pub status_update-launches :
      (persisted : SchedulerState) (now : ℕ) (status : TaskStatus) (s : Scheduler R)
      → LaunchesNone (status_update persisted now status s).1
  unfolding status_update update_at update_found update_service
  status_update-launches persisted now status s name = elim (Option-cases (rfind status.task_id)) [
    | inl no_dash ↦ rw no_dash refl
    | inr (p, cut) ↦ elim (Option-cases (get_service (substr status.task_id 0 p))) [
      | inl no_name ↦ rw (cut, no_name) refl
      | inr (named, known) ↦
          rw
            (
              cut,
              known,
              update_service,
              launches-append,
              judge_status-launches R _ _ _ _ _ name,
              check_version-launches R persisted named status name,
            )
            refl
    ]
  ]
