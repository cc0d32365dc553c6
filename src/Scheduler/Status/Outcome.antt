-- ===== src/Scheduler/Status/Outcome.antt =====
-- scheduler/scheduler.cpp: the state that a service has after `statusUpdate`, on every branch.
use mesos_framework.Base.{
  ℕ, String, ◌≡◌, refl, ◌≢◌, ◌⊎◌, inl, inr, true, false, arith, eq_iff, Bool-cases, none,
}
use mesos_framework.Base.Text.{NoDash}
use mesos_framework.Proto.{not_running, running, ServiceState, SchedulerState}
use mesos_framework.Mesos.{
  TaskState, task_staging, task_starting, task_running, task_finished, task_failed, task_killed,
  task_lost, task_error, TaskStatus,
}
use mesos_framework.Scheduler.Names.{id_on}
use mesos_framework.Scheduler.Policy.{is_terminal}
use mesos_framework.Scheduler.State.{Scheduler, Service}
use mesos_framework.Scheduler.State.Fields.{task_name, state_of, state_of-create_host}
use mesos_framework.Scheduler.Status.{is_up, service_should_run, owns, judge_status}
use mesos_framework.Scheduler.Status.Reports.{
  node_of, updated, updated-judge_status, status_update-seen_running, status_update-seen_terminal,
  status_update_stale,
}
use mesos_framework.Scheduler.Status.Kills.{IsUnwanted, service_should_run_iff}

-- The service has this task on record, or none.
abbrev pub IsOwnedBy : String → ServiceState → Type 0
IsOwnedBy task_id state = (state.task_id ≡ "") ⊎ (state.task_id ≡ task_id)

-- Another task is on record.
abbrev pub IsOwnedByOther : String → ServiceState → Type 0
IsOwnedByOther task_id state = (state.task_id ≢ "") × (state.task_id ≢ task_id)

abbrev pub IsUp : TaskState → Type 0
IsUp t = (t ≡ task_running) ⊎ (t ≡ task_finished)

abbrev pub HasFailed : TaskState → Type 0
HasFailed t = (t ≡ task_failed) ⊎ (t ≡ task_killed) ⊎ (t ≡ task_lost) ⊎ (t ≡ task_error)

abbrev pub IsPending : TaskState → Type 0
IsPending t = (t ≡ task_staging) ⊎ (t ≡ task_starting)

is_up-IsUp : (t : TaskState) → is_up t ≡ true → IsUp t
unfolding is_up
is_up-IsUp t h = ground arith

is_terminal-HasFailed : (t : TaskState) → is_up t ≡ false → is_terminal t ≡ true → HasFailed t
unfolding is_up is_terminal
is_terminal-HasFailed t h k = ground arith

is_terminal-IsPending : (t : TaskState) → is_up t ≡ false → is_terminal t ≡ false → IsPending t
unfolding is_up is_terminal
is_terminal-IsPending t h k = ground arith

pub owns-IsOwnedBy :
    (task_id : String) (state : ServiceState) → owns state task_id ≡ true → IsOwnedBy task_id state
owns-IsOwnedBy task_id state h =
    ground (arith, eq_iff task_id state.task_id, eq_iff state.task_id "")

pub IsOwnedBy-owns :
    (task_id : String) (state : ServiceState) → IsOwnedBy task_id state → owns state task_id ≡ true
IsOwnedBy-owns task_id state h =
    ground (arith, eq_iff task_id state.task_id, eq_iff state.task_id "")

owns-IsOwnedByOther :
    (task_id : String) (state : ServiceState)
    → owns state task_id ≡ false
    → IsOwnedByOther task_id state
owns-IsOwnedByOther task_id state h =
    ground (arith, eq_iff task_id state.task_id, eq_iff state.task_id "")

module _ {ℓ} {R : Type ℓ} (persisted : SchedulerState) (now : ℕ) (status : TaskStatus)
    (s : Scheduler R) (service : Service) (hostname : String)
    (named : status.task_id ≡ id_on (task_name service) hostname) (plain : NoDash hostname) where
  abbrev pub old_state : ServiceState
  old_state = state_of service hostname s

  abbrev pub new_state : ServiceState
  new_state =
      state_of service hostname (updated persisted now status s service hostname named plain)

  abbrev pub Unwanted : Type 0
  Unwanted = IsUnwanted service (node_of hostname status.slave_id s) old_state status.task_id

  unchanged :
      (judge_status {R = R} now service (node_of hostname status.slave_id s) old_state status).0
        ≡ none
      → new_state ≡ old_state
  unchanged h =
      rw (updated-judge_status persisted now status s service hostname named plain, h)
        (state_of-create_host service hostname hostname status.slave_id s)

  -- For a task of a known service, on a host whose name has no dash, one of three holds of the
  -- service after an update. The task is reported running or finished, is wanted, and is the one on
  -- record or none is: the service is recorded as running, under the id of the task, updated and
  -- seen now. The task is reported failed, killed, lost or in error, and is the one on record or
  -- none is: the service is recorded as not running, without a task, updated now. Or the task is up
  -- but is not wanted or another one is on record, or has failed while another one is on record, or
  -- is staging or starting: the state is as it was.
  pub status_update-state :
      (IsUp status.state
        × (¬ Unwanted)
        × IsOwnedBy status.task_id old_state
        × (new_state ≡ record old_state {
          state = running;
          last_update_s = now;
          last_seen_s = now;
          last_message = status.message;
          task_id = status.task_id;
        }))
      ⊎ (HasFailed status.state
          × IsOwnedBy status.task_id old_state
          × (new_state ≡ record old_state {
            state = not_running;
            last_update_s = now;
            last_message = status.message;
            task_id = "";
          }))
      ⊎ (((IsUp status.state × (Unwanted ⊎ IsOwnedByOther status.task_id old_state))
            ⊎ (HasFailed status.state × IsOwnedByOther status.task_id old_state)
            ⊎ IsPending status.state)
          × (new_state ≡ old_state))
  unfolding judge_status
  status_update-state =
      let node = node_of hostname status.slave_id s in
      let stale =
        status_update_stale persisted now status s service hostname named plain service hostname in
      let runs = status_update-seen_running persisted now status s service hostname named plain in
      let ends = status_update-seen_terminal persisted now status s service hostname named plain in
      let (out, back) = service_should_run_iff service node old_state status.task_id in
      elim (Bool-cases (is_up status.state)) [
        | inl up ↦ elim (Bool-cases (service_should_run service node old_state status.task_id)) [
          | inl wanted ↦ elim (Bool-cases (owns old_state status.task_id)) [
            | inl owned ↦ inl (
              is_up-IsUp _ up,
              (λ u. let unwanted = back u in cc),
              owns-IsOwnedBy status.task_id old_state owned,
              runs up wanted owned,
            )
            | inr other ↦ inr (
                inr (
                  inl (is_up-IsUp _ up, inr (owns-IsOwnedByOther status.task_id old_state other)),
                  stale other,
                ))
          ]
          | inr unwanted ↦ inr (
              inr (
                inl (is_up-IsUp _ up, inl (out unwanted)),
                unchanged (rw (judge_status, up, unwanted) refl),
              ))
        ]
        | inr down ↦ elim (Bool-cases (is_terminal status.state)) [
          | inl ended ↦ elim (Bool-cases (owns old_state status.task_id)) [
            | inl owned ↦ inr (
                inl (
                  is_terminal-HasFailed _ down ended,
                  owns-IsOwnedBy status.task_id old_state owned,
                  ends ended down owned,
                ))
            | inr other ↦ inr (
                inr (
                  inr (
                      inl (
                        is_terminal-HasFailed _ down ended,
                        owns-IsOwnedByOther status.task_id old_state other,
                      )),
                  stale other,
                ))
          ]
          | inr pending ↦ inr (
              inr (
                inr (inr (is_terminal-IsPending _ down pending)),
                unchanged (rw (judge_status, down, pending) refl),
              ))
        ]
      ]
