-- ===== src/Scheduler/Tracking/Updates.antt =====
-- scheduler/scheduler.cpp: tasks on record, through `statusUpdate` and `frameworkMessage`.
use mesos_framework.Base.{
  ℕ, String, ◌≡◌, refl, ◌≢◌, subst, [], ◌∷◌, Option, none, some, ◌==◌, Option-cases, Bool-cases,
  inl, inr, Ensures, get_or,
}
use mesos_framework.Base.Text.{rfind}
use mesos_framework.Base.Dict
use mesos_framework.Base.Dict.{Dict}
use mesos_framework.Proto.{ServiceState, NodeState, SchedulerState, ProbeResponse}
use mesos_framework.Mesos.{TaskStatus}
use mesos_framework.Scheduler.Policy.{is_terminal}
use mesos_framework.Scheduler.State.{Scheduler, Service, new_host, service_state}
use mesos_framework.Scheduler.Status.{
  is_up, service_should_run, owns, judge_status, write_state, update_service, update_found,
  update_at, status_update,
}
use mesos_framework.Scheduler.Probe.{take_response, framework_message}
use mesos_framework.Scheduler.Tracking.{
  IsTracked, NodeIsTracked, SchedulerIsTracked, create_host-SchedulerIsTracked,
  set_service_state-SchedulerIsTracked,
}

module _ {ℓ} (R : Type ℓ) where
  judge_status-IsTracked :
      (now : ℕ) (service : Service) (node : NodeState) (state : ServiceState) (status : TaskStatus)
      → status.task_id ≢ ""
      → Ensures IsTracked (judge_status {R = R} now service node state status).0
  unfolding judge_status
  judge_status-IsTracked now service node state status named =
      elim (Bool-cases (is_up status.state)) [
        | inl up ↦ elim (Bool-cases (service_should_run service node state status.task_id)) [
          | inl wanted ↦ elim (Bool-cases (owns state status.task_id)) [
            | inl owned ↦ rw (up, wanted, owned) (λ e. named)
            | inr stale ↦ rw (up, wanted, stale) tt
          ]
          | inr unwanted ↦ rw (up, unwanted) tt
        ]
        | inr down ↦ elim (Bool-cases (is_terminal status.state)) [
          | inl ended ↦ elim (Bool-cases (owns state status.task_id)) [
            | inl owned ↦ rw (down, ended, owned) (λ e. cc)
            | inr stale ↦ rw (down, ended, stale) tt
          ]
          | inr lives ↦ rw (down, lives) tt
        ]
      ]

  write_state-SchedulerIsTracked :
      (service : Service) (hostname : String) (w : Option ServiceState) (s : Scheduler R)
      → Ensures IsTracked w
      → SchedulerIsTracked s
      → SchedulerIsTracked (write_state service hostname w s)
  write_state-SchedulerIsTracked service hostname none s p h = h
  write_state-SchedulerIsTracked service hostname (some v) s p h =
      set_service_state-SchedulerIsTracked service hostname v s p h

  update_found-SchedulerIsTracked :
      (persisted : SchedulerState) (now : ℕ) (status : TaskStatus) (hostname : String)
      (service : Option Service) (s : Scheduler R)
      → status.task_id ≢ ""
      → SchedulerIsTracked s
      → SchedulerIsTracked (update_found persisted now status hostname service s).0
  unfolding update_found update_service
  update_found-SchedulerIsTracked persisted now status hostname none s named h = h
  update_found-SchedulerIsTracked persisted now status hostname (some service) s named h =
      let node = get_or (new_host hostname status.slave_id) (Dict.find hostname s.nodes) in
      write_state-SchedulerIsTracked service hostname _ s
        (judge_status-IsTracked now service node (service_state service node s) status named) h

  -- An id with a dash is not empty.
  rfind-filled : (id : String) (p : ℕ) → rfind id ≡ some p → id ≢ ""
  unfolding rfind
  rfind-filled id p found empty =
      let none_found : rfind "" ≡ some p = subst (λ t. rfind t ≡ some p) empty found in
      cc none_found

  update_at-SchedulerIsTracked :
      (persisted : SchedulerState) (now : ℕ) (status : TaskStatus) (cut : Option ℕ)
      (s : Scheduler R)
      → rfind status.task_id ≡ cut
      → SchedulerIsTracked s
      → SchedulerIsTracked (update_at persisted now status cut s).0
  unfolding update_at
  update_at-SchedulerIsTracked persisted now status none s e h = h
  update_at-SchedulerIsTracked persisted now status (some p) s e h =
      update_found-SchedulerIsTracked persisted now status _ _ _ (rfind-filled status.task_id p e)
        (create_host-SchedulerIsTracked _ _ s h)

  pub status_update-SchedulerIsTracked :
      (persisted : SchedulerState) (now : ℕ) (status : TaskStatus) (s : Scheduler R)
      → SchedulerIsTracked s
      → SchedulerIsTracked (status_update persisted now status s).0
  unfolding status_update
  status_update-SchedulerIsTracked persisted now status s h =
      update_at-SchedulerIsTracked persisted now status _ s refl h

  module _ (decode : String → Option ProbeResponse) (now : ℕ) (slave_id payload : String) where
    take_response-AllValues :
        (m : Dict NodeState)
        → Dict.AllValues NodeIsTracked m
        → Dict.AllValues NodeIsTracked (take_response decode now slave_id payload m)
    unfolding take_response
    take_response-AllValues [] h = tt
    take_response-AllValues ((k, node) ∷ m) (p, h) =
        let rest = take_response-AllValues m h in
        elim (Bool-cases (node.slave_id_value == slave_id)) [
          | inl same ↦ elim (Option-cases (decode payload)) [
            | inl bad ↦ rw (same, bad) (p, h)
            | inr (response, good) ↦ rw (same, good) (p, rest)
          ]
          | inr other ↦ rw other (p, rest)
        ]

    pub framework_message-SchedulerIsTracked :
        (s : Scheduler R)
        → SchedulerIsTracked s
        → SchedulerIsTracked (framework_message decode now slave_id payload s)
    unfolding framework_message
    framework_message-SchedulerIsTracked s (a, b, c, h) =
        (a, b, c, take_response-AllValues s.nodes h)
