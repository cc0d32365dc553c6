-- ===== src/Scheduler/Progress.antt =====
-- scheduler/scheduler.cpp: what single calls of the handlers do for a host, where nothing stands in
-- the way.
pub mod Offers
pub mod Starts
use text.Mathlib.Text.{find?}
use mesos_framework.Base.{
  ℕ, String, ◌≡◌, ◌≢◌, refl, ◌∙◌, ap, Bool, true, false, not, ◌&&◌, List, [], ◌∷◌, ◌++◌, Option,
  none, some, arith, ◌>>=◌, is_none, Option-cases, inl, inr, ◌==◌, get_or, eq_refl, eq_iff,
}
use mesos_framework.Base.Text.{is_empty, NoDash}
use mesos_framework.Base.Dict
use mesos_framework.Base.Dict.{Dict}
use mesos_framework.Flags.{Flags}
use mesos_framework.Proto.{
  starting, ServiceState, NodeState, SchedulerState, ProbeRequest, ProbeResponse,
}
use mesos_framework.Mesos.{
  TaskInfo, TaskStatus, Offer, Call, decline_offer, launch_tasks, reconcile_tasks,
  send_framework_message, ResourceOps,
}
use mesos_framework.Scheduler.Names.{prober_task, id_on}
use mesos_framework.Scheduler.State.{
  Scheduler, Service, prober, registry, metadata, data_service, client, new_host, create_host,
  resources_for, node_field, set_node_field, is_shared, service_state, set_service_state,
}
use mesos_framework.Scheduler.State.Fields.{task_name}
use mesos_framework.Scheduler.Policy.{is_terminal}
use mesos_framework.Scheduler.Task.{create_prober_task_info}
use mesos_framework.Scheduler.Offers.{
  put_node, reconcile_host, prober_is_due, launch_prober, probe_is_due, trigger_discovery,
  offer_to_services, known_offer, handle_offer, resource_offers,
}
use mesos_framework.Scheduler.Offers.Cases.{offered}
use mesos_framework.Scheduler.Offers.Readiness.{IsReady}
use mesos_framework.Scheduler.Status.{
  is_up, owns, service_should_run, seen_running, seen_terminal, judge_status, update_service,
  status_update,
}
use mesos_framework.Scheduler.Status.Routing.{status_update-update_service}
use mesos_framework.Scheduler.Probe.{with_response, framework_message}
use mesos_framework.Scheduler.Probe.Responses.{find-framework_message}

pub empty-false : (a : String) → a ≢ "" → is_empty a ≡ false
empty-false a h = ground (arith, eq_iff a "", h)

pub free-owns :
    (state : ServiceState) (task_id : String) → state.task_id ≡ "" → owns state task_id ≡ true
free-owns state task_id free =
    ground (arith, eq_iff state.task_id "", eq_iff task_id state.task_id, free)

module _ {ℓ} (R : Type ℓ) where
  -- An end that is reported of the task on record, or where none is on record, is recorded.
  pub judge-terminal :
      (now : ℕ) (service : Service) (n : NodeState) (state : ServiceState) (status : TaskStatus)
      → is_up status.state ≡ false
      → is_terminal status.state ≡ true
      → owns state status.task_id ≡ true
      → (judge_status {R = R} now service n state status).0 ≡ some (seen_terminal now status state)
  unfolding judge_status
  judge-terminal now service n state status down ended owned = rw (down, ended, owned) refl

  -- A service without a task on record takes any task that may run.
  pub judge-up :
      (now : ℕ) (service : Service) (n : NodeState) (state : ServiceState) (status : TaskStatus)
      → is_up status.state ≡ true
      → service_should_run service n state status.task_id ≡ true
      → state.task_id ≡ ""
      → (judge_status {R = R} now service n state status).0 ≡ some (seen_running now status state)
  unfolding judge_status
  judge-up now service n state status up wanted free =
      rw (up, wanted, free-owns state status.task_id free) refl

module _ {ℓ} {R : Type ℓ} where
  -- What is known of a host, and the table of resources.
  abbrev pub At : String → NodeState → Dict R → Scheduler R → Type ℓ
  At hostname node table s = (Dict.find hostname s.nodes ≡ some node) × (s.resources ≡ table)

  pub put_node-At :
      (hostname : String) (n m : NodeState) (table : Dict R) (s : Scheduler R)
      → At hostname n table s
      → At hostname m table (put_node hostname m s)
  put_node-At hostname n m table s h =
      (Dict.find-modify hostname hostname (λ _. m) s.nodes ∙ rw (eq_refl hostname, h.0) refl, h.1)

  create_host-At :
      (hostname slave_id : String) (n : NodeState) (table : Dict R) (s : Scheduler R)
      → At hostname n table s
      → At hostname n table (create_host hostname slave_id s)
  unfolding create_host
  create_host-At hostname slave_id n table s h =
      (Dict.find-insert hostname hostname (new_host hostname slave_id) s.nodes ∙ rw h.0 refl, h.1)

  create_host-At_new :
      (hostname slave_id : String) (s : Scheduler R)
      → Dict.find hostname s.nodes ≡ none
      → At hostname (new_host hostname slave_id) s.resources (create_host hostname slave_id s)
  unfolding create_host
  create_host-At_new hostname slave_id s h = (
    Dict.find-insert hostname hostname (new_host hostname slave_id) s.nodes
        ∙ rw (h, eq_refl hostname) refl,
    refl,
  )

  modify-At :
      (hostname : String) (n : NodeState) (f : NodeState → NodeState) (table : Dict R)
      (s : Scheduler R)
      → At hostname n table s
      → At hostname (f n) table (record s { nodes = Dict.modify hostname f s.nodes })
  modify-At hostname n f table s h =
      (Dict.find-modify hostname hostname f s.nodes ∙ rw (eq_refl hostname, h.0) refl, h.1)

  set_service_state-At :
      (service : Service) (hostname : String) (v : ServiceState) (n : NodeState) (table : Dict R)
      (s : Scheduler R)
      → is_shared service ≡ false
      → At hostname n table s
      → At hostname (set_node_field service v n) table (set_service_state service hostname v s)
  set_service_state-At prober hostname v n table s own h = modify-At hostname n _ table s h
  set_service_state-At registry hostname v n table s own h = modify-At hostname n _ table s h
  set_service_state-At metadata hostname v n table s own h = modify-At hostname n _ table s h
  set_service_state-At data_service hostname v n table s own h = modify-At hostname n _ table s h
  set_service_state-At client hostname v n table s own h = modify-At hostname n _ table s h
  set_service_state-At _ hostname v n table s own h = absurd (ground arith)

  pub service_state-own :
      (service : Service) (n : NodeState) (s : Scheduler R)
      → is_shared service ≡ false
      → service_state service n s ≡ node_field service n
  service_state-own prober n s own = refl
  service_state-own registry n s own = refl
  service_state-own metadata n s own = refl
  service_state-own data_service n s own = refl
  service_state-own client n s own = refl
  service_state-own _ n s own = absurd (ground arith)

  -- An update that is accepted for a service of the host.
  pub update-At :
      (persisted : SchedulerState) (now : ℕ) (status : TaskStatus) (s : Scheduler R)
      (service : Service) (hostname : String) (n : NodeState) (table : Dict R) (v : ServiceState)
      → is_shared service ≡ false
      → status.task_id ≡ id_on (task_name service) hostname
      → NoDash hostname
      → (judge_status {R = R} now service n (node_field service n) status).0 ≡ some v
      → At hostname n table s
      → At hostname (set_node_field service v n) table (status_update persisted now status s).0
  unfolding update_service
  update-At persisted now status s service hostname n table v own named plain judged h =
      let made = create_host-At hostname status.slave_id n table s h in
      rw
        (
          status_update-update_service persisted now status s service hostname named plain,
          update_service,
          made.0,
          service_state-own service n (create_host hostname status.slave_id s) own,
          judged,
        )
        (set_service_state-At service hostname v n table (create_host hostname status.slave_id s)
          own made)

  -- A message of the host's slave that can be read.
  pub message-At :
      (decode : String → Option ProbeResponse) (now : ℕ) (slave_id payload : String)
      (s : Scheduler R) (hostname : String) (n : NodeState) (table : Dict R)
      (response : ProbeResponse)
      → n.slave_id_value ≡ slave_id
      → decode payload ≡ some response
      → At hostname n table s
      → At hostname
          (with_response now response n)
          table
          (framework_message decode now slave_id payload s)
  unfolding framework_message
  message-At decode now slave_id payload s hostname n table response on_slave read h =
      let mine = (eq_iff n.slave_id_value slave_id).1 on_slave in
      (
        find-framework_message decode now slave_id payload hostname s ∙ rw (h.0, mine, read) refl,
        h.1,
      )
