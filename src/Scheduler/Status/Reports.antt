-- ===== src/Scheduler/Status/Reports.antt =====
-- scheduler/scheduler.cpp: what `statusUpdate` records of a service.
use mesos_framework.Base.{
  ℕ, String, ◌≡◌, refl, ◌≢◌, ◌⊎◌, inl, inr, true, false, Option, none, some, arith, get_or, ◌∙◌, ap,
}
use mesos_framework.Base.Text.{NoDash}
use mesos_framework.Base.Dict
use mesos_framework.Proto.{ServiceState, NodeState, SchedulerState}
use mesos_framework.Mesos.{TaskStatus}
use mesos_framework.Scheduler.Names.{id_on}
use mesos_framework.Scheduler.Policy.{is_terminal}
use mesos_framework.Scheduler.State.{
  Scheduler, Service, new_host, create_host, service_state, is_shared,
}
use mesos_framework.Scheduler.State.Fields.{
  task_name, state_of, state_of-set_other, state_of-set_elsewhere, state_of-set_self,
  state_of-create_host, find-create_host,
}
use mesos_framework.Scheduler.Status.{
  is_up, service_should_run, owns, seen_running, seen_terminal, judge_status, write_state,
  update_service, status_update,
}
use mesos_framework.Scheduler.Status.Routing.{status_update-update_service}

-- The node of a host, a new one if it has none.
abbrev pub node_of {ℓ} : {R : Type ℓ} → String → String → Scheduler R → NodeState
node_of hostname slave_id s = get_or (new_host hostname slave_id) (Dict.find hostname s.nodes)

judge_status_stale {ℓ} :
    (R : Type ℓ) (now : ℕ) (service : Service) (node : NodeState) (state : ServiceState)
    (status : TaskStatus)
    → owns state status.task_id ≡ false
    → (judge_status {R = R} now service node state status).0 ≡ none
unfolding judge_status
judge_status_stale R now service node state status stale = ground arith

module _ {ℓ} {R : Type ℓ} (persisted : SchedulerState) (now : ℕ) (status : TaskStatus)
    (s : Scheduler R) (service : Service) (hostname : String)
    (named : status.task_id ≡ id_on (task_name service) hostname) (plain : NoDash hostname) where
  abbrev pub updated : Scheduler R
  updated = (status_update persisted now status s).0

  abbrev pub created : Scheduler R
  created = create_host hostname status.slave_id s

  pub state_created :
      service_state service (node_of hostname status.slave_id s) created
      ≡ state_of service hostname s
  unfolding create_host
  state_created = ground arith

  -- The judgement is made on the state that the service has before the update.
  pub updated-judge_status :
      updated
      ≡ write_state service hostname
          (judge_status {R = R} now service
            (node_of hostname status.slave_id s)
            (state_of service hostname s)
            status).0
          created
  unfolding update_service
  updated-judge_status =
      ap (λ r. r.0)
        (status_update-update_service persisted now status s service hostname named plain)
      ∙ rw (find-create_host hostname status.slave_id s, state_created) refl

  -- For a task of a known service, on a host whose name has no dash: if it is reported running or
  -- finished, if it is wanted, and if the service has no task or this one, then the service is
  -- recorded as running, under the id of the task.
  pub status_update-seen_running :
      is_up status.state ≡ true
      → service_should_run service
          (node_of hostname status.slave_id s)
          (state_of service hostname s)
          status.task_id
        ≡ true
      → owns (state_of service hostname s) status.task_id ≡ true
      → state_of service hostname updated ≡ seen_running now status (state_of service hostname s)
  unfolding judge_status
  status_update-seen_running up wanted owned =
      rw (updated-judge_status, judge_status, up, wanted, owned)
        (state_of-set_self service hostname _ created _
          (find-create_host hostname status.slave_id s))

  -- For a task of a known service, on a host whose name has no dash: if it is reported to have
  -- ended in another way than TASK_FINISHED, and the service has no task or this one, then the
  -- service is recorded as not running and without a task.
  pub status_update-seen_terminal :
      is_terminal status.state ≡ true
      → is_up status.state ≡ false
      → owns (state_of service hostname s) status.task_id ≡ true
      → state_of service hostname updated ≡ seen_terminal now status (state_of service hostname s)
  unfolding judge_status
  status_update-seen_terminal ended down owned =
      rw (updated-judge_status, judge_status, down, ended, owned)
        (state_of-set_self service hostname _ created _
          (find-create_host hostname status.slave_id s))

  -- For a task of a known service, on a host whose name has no dash: if the service has another
  -- task on record, the report changes the state of no service, of this host or of another.
  pub status_update_stale :
      (other : Service) (host' : String)
      → owns (state_of service hostname s) status.task_id ≡ false
      → state_of other host' updated ≡ state_of other host' s
  status_update_stale other host' stale =
      rw
        (
          updated-judge_status,
          judge_status_stale R now service (node_of hostname status.slave_id s)
              (state_of service hostname s) status stale,
        )
        (state_of-create_host other host' hostname status.slave_id s)

  -- For a task of a known service, on a host whose name has no dash: a report changes no other
  -- service, on whatever host; and on other hosts it changes this service only if all hosts share
  -- it.
  pub status_update_frame :
      (other : Service) (host' : String)
      → (service ≢ other) ⊎ ((hostname ≢ host') × (is_shared service ≡ false))
      → state_of other host' updated ≡ state_of other host' s
  status_update_frame other host' apart = rw updated-judge_status (
      written-other apart
        (judge_status {R = R} now service (node_of hostname status.slave_id s)
          (state_of service hostname s) status).0
      ∙ state_of-create_host other host' hostname status.slave_id s)
    where
      written-other :
          (service ≢ other) ⊎ ((hostname ≢ host') × (is_shared service ≡ false))
          → (w : Option ServiceState)
          → state_of other host' (write_state service hostname w created)
            ≡ state_of other host' created
      written-other _ none = refl
      written-other (inl h) (some v) = state_of-set_other service other hostname host' v created h
      written-other (inr (h, k)) (some v) =
          state_of-set_elsewhere service other hostname host' v created h k
