-- ===== src/Probing.antt =====
-- The prober's task, across executor/executor.cpp, which reports it as finished when it is launched,
-- and scheduler/scheduler.cpp, which takes this for a sign of life.
use mesos_framework.Base.{ℕ, String, ◌≡◌, refl, ◌≢◌, true, List, [], ◌∷◌, inl, inr, arith}
use mesos_framework.Base.Text.{NoDash}
use mesos_framework.Proto.{running, NodeState, ServiceState, SchedulerState}
use mesos_framework.Mesos.{TaskStatus, Call}
use mesos_framework.Executor.{launch_task}
use mesos_framework.Scheduler.Names.{id_on}
use mesos_framework.Scheduler.State.{Scheduler, prober}
use mesos_framework.Scheduler.State.Fields.{state_of}
use mesos_framework.Scheduler.Status.{is_up, service_should_run, status_update}
use mesos_framework.Scheduler.Status.Reports.{status_update-seen_running}
use mesos_framework.Scheduler.Status.Outcome.{IsOwnedBy, IsOwnedBy-owns}
use mesos_framework.Scheduler.Status.Kills.{status_update-kill_task}

-- What the prober on a host reports when its task is launched; the driver adds the slave's id.
abbrev pub prober_report : String → String → TaskStatus
prober_report hostname slave_id = record (launch_task (id_on "quobyte-device-prober" hostname)) {
  slave_id = slave_id;
}

pub prober_should_run :
    (node : NodeState) (state : ServiceState) (task_id : String)
    → service_should_run prober node state task_id ≡ true
unfolding service_should_run
prober_should_run node state task_id = ground arith

no_calls {ℓ} : {R : Type ℓ} (calls : List (Call R)) → (calls ≢ [] → ⊥) → calls ≡ []
no_calls [] h = refl
no_calls (c ∷ cs) h = absurd (h (λ e. cc))

-- On a host whose name has no dash, and whose prober has no other task on record: when the prober's
-- task is launched, its report makes the scheduler record the prober as running, under the id of this
-- task, updated and seen now, and no task is killed for it, also where no version is to be deployed.
pub prober_report-seen_running {ℓ} :
    {R : Type ℓ} (persisted : SchedulerState) (now : ℕ) (hostname slave_id : String)
    (s : Scheduler R)
    → NoDash hostname
    → IsOwnedBy (id_on "quobyte-device-prober" hostname) (state_of prober hostname s)
    → (state_of prober hostname (status_update persisted now (prober_report hostname slave_id) s).0
        ≡ record (state_of prober hostname s) {
          state = running;
          last_update_s = now;
          last_seen_s = now;
          last_message = "";
          task_id = id_on "quobyte-device-prober" hostname;
        })
      × ((status_update persisted now (prober_report hostname slave_id) s).1 ≡ [])
unfolding is_up launch_task
prober_report-seen_running persisted now hostname slave_id s plain owned =
    let report = prober_report hostname slave_id in
    let (all, (killed, kills)) =
      status_update-kill_task persisted now report s prober hostname refl plain in
    (
      status_update-seen_running persisted now report s prober hostname refl plain refl
          (prober_should_run _ _ _)
          (IsOwnedBy-owns (id_on "quobyte-device-prober" hostname) (state_of prober hostname s)
            owned),
      no_calls _ λ e. elim (killed e) [
        | inl (up, inl (shared, runs, differs)) ↦ cc
        | inl (up, inr (valid, lacking)) ↦ absurd lacking
        | inr (version, service, lives) ↦ service refl
      ],
    )
