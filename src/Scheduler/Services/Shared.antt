-- ===== src/Scheduler/Services/Shared.antt =====
-- scheduler/scheduler.cpp: a single start of the API, S3 or the console, which run once for all
-- hosts, and of the other services.
use mesos_framework.Base.{
  ℕ, String, ◌≡◌, refl, ◌⊎◌, inl, inr, true, false, ◌&&◌, [], ◌∷◌, ◌++◌, some, arith, ◌==◌,
  Option-cases, Bool-cases, eq_refl,
}
use mesos_framework.Flags.{Flags}
use mesos_framework.Proto.{ServiceState, not_running, running, SchedulerState}
use mesos_framework.Mesos.{Offer, TaskInfo, ResourceOps}
use mesos_framework.Scheduler.Names.{id_on, client_task}
use mesos_framework.Scheduler.Policy.{do_start_service}
use mesos_framework.Scheduler.Policy.Starting.{do_start_service_iff}
use mesos_framework.Scheduler.Task.{make_task}
use mesos_framework.Scheduler.State.{Scheduler, Service, is_shared, resources_for, node_field}
use mesos_framework.Scheduler.State.Fields.{task_name}
use mesos_framework.Scheduler.Services.{Round, start_shared, start_client, start_core, role_allows}
use mesos_framework.Scheduler.Services.Counts.{
  count_named-append, shared_state, make_task-name, RoundLaunches, core_name-differs,
  count_named_other,
}

module _ {ℓ} {R : Type ℓ} (flags : Flags) (ops : ResourceOps R) (persisted : SchedulerState) where
  -- What `start_shared` does, for a round in which it does something.
  pub start_shared-result :
      (service_id name : String) (rpc_port http_port : ℕ) (field : Scheduler R → ServiceState)
      (put : ServiceState → Scheduler R → Scheduler R) (offer : Offer R) (r r' : Round R)
      → start_shared flags ops persisted service_id name rpc_port http_port field put offer r
        ≡ some r'
      → (r' ≡ r)
        ⊎ ((task : TaskInfo R) × (task.name ≡ name)
            × (r'.tasks ≡ r.tasks ++ task ∷ [])
            × ((field r.scheduler).state ≡ not_running)
            × (r'.scheduler
                ≡ put
                    (record (field r.scheduler) {
                      state = running;
                      task_id = id_on name offer.hostname;
                    })
                    r.scheduler))
  unfolding start_shared
  start_shared-result service_id name rpc_port http_port field put offer r r' e =
      let needed = resources_for flags ops service_id r.scheduler in
      let starts = do_start_service service_id r.node (field r.scheduler).state in
      let making =
        make_task flags ops persisted r.scheduler service_id name (id_on name offer.hostname)
          offer.hostname rpc_port http_port offer.slave_id in
      elim (Bool-cases (
        ops.contains r.remaining needed && starts && role_allows flags ops persisted r.remaining)) [
          | inr kept ↦ inl (ground arith)
          | inl wanted ↦ elim (Option-cases making) [
            | inl aborted ↦ absurd (ground arith)
            | inr (task, made) ↦
                let started : starts ≡ true = ground arith in
                inr (
                  task,
                  make_task-name flags ops persisted r.scheduler service_id name _ _ _ _ _ task
                      made,
                  ground arith,
                  ((do_start_service_iff service_id r.node _).0 started).1,
                  ground arith,
                )
          ]
        ]

  -- What a case of the `switch` does to the tasks and to the scheduler.
  pub start_core-result :
      (service_id name : String) (rpc_port http_port : ℕ) (core : Service) (message : String)
      (offer : Offer R) (r r' : Round R)
      → start_core flags ops persisted service_id name rpc_port http_port core message offer r
        ≡ some r'
      → ((r'.tasks ≡ r.tasks) × (r'.scheduler ≡ r.scheduler))
        ⊎ ((task : TaskInfo R) × (task.name ≡ name)
            × (r'.tasks ≡ r.tasks ++ task ∷ [])
            × (r'.scheduler ≡ r.scheduler))
  unfolding start_core
  start_core-result service_id name rpc_port http_port core message offer r r' e =
      let needed = resources_for flags ops service_id r.scheduler in
      let making =
        make_task flags ops persisted r.scheduler service_id name (id_on name offer.hostname)
          offer.hostname rpc_port http_port offer.slave_id in
      elim (Bool-cases (do_start_service service_id r.node (node_field core r.node).state)) [
        | inr kept ↦ inl (ground arith, ground arith)
        | inl wanted ↦ elim (Bool-cases (ops.contains r.remaining needed)) [
          | inr poor ↦ inl (ground arith, ground arith)
          | inl rich ↦ elim (Option-cases making) [
            | inl aborted ↦ absurd (ground arith)
            | inr (task, made) ↦ inr (
              task,
              make_task-name flags ops persisted r.scheduler service_id name _ _ _ _ _ task made,
              ground arith,
              ground arith,
            )
          ]
        ]
      ]

  pub start_client-RoundLaunches :
      (service : Service) (offer : Offer R) (r : Round R)
      → is_shared service ≡ true
      → RoundLaunches service r (start_client flags ops persisted offer r)
  unfolding start_client
  start_client-RoundLaunches service offer r h =
      let needed = resources_for flags ops client_task r.scheduler in
      elim (Bool-cases (
        ops.contains r.remaining needed
        && do_start_service client_task r.node r.node.client.state
        && r.node.client_mount_point)) [
          | inr kept ↦ rw (kept, start_client) (inl (refl, refl))
          | inl wanted ↦
              rw (wanted, start_client)
                (inl (
                  refl,
                  count_named_other (task_name service) _ r.tasks (core_name-differs service h).0,
                ))
        ]

  pub start_core-RoundLaunches :
      (service : Service) (service_id name : String) (rpc_port http_port : ℕ) (core : Service)
      (message : String) (offer : Offer R) (r r' : Round R)
      → (name == task_name service) ≡ false
      → start_core flags ops persisted service_id name rpc_port http_port core message offer r
        ≡ some r'
      → RoundLaunches service r r'
  start_core-RoundLaunches service service_id name rpc_port http_port core message offer r r' h e =
      elim (start_core-result service_id name rpc_port http_port core message offer r r' e) [
        | inl (same_tasks, same) ↦ inl (rw same refl, rw same_tasks refl)
        | inr (task, named, more, same) ↦ inl (
          rw same refl,
          rw more (count_named_other (task_name service) task r.tasks (rw named h)),
        )
      ]

  pub start_shared-RoundLaunches :
      (service : Service) (service_id name : String) (rpc_port http_port : ℕ)
      (field : Scheduler R → ServiceState) (put : ServiceState → Scheduler R → Scheduler R)
      (offer : Offer R) (r r' : Round R)
      → ((name == task_name service) ≡ false)
        × ((v : ServiceState) (s : Scheduler R)
            → shared_state service (put v s) ≡ shared_state service s)
      → start_shared flags ops persisted service_id name rpc_port http_port field put offer r
        ≡ some r'
      → RoundLaunches service r r'
  start_shared-RoundLaunches service service_id name rpc_port http_port field put offer r r' (h, k)
        e =
      elim (start_shared-result service_id name rpc_port http_port field put offer r r' e) [
        | inl same ↦ inl (rw same refl, rw same refl)
        | inr (task, named, more, down, now_up) ↦ inl (
          rw now_up (k _ _),
          rw more (count_named_other (task_name service) task r.tasks (rw named h)),
        )
      ]

  pub start_own-RoundLaunches :
      (service : Service) (service_id : String) (rpc_port http_port : ℕ)
      (field : Scheduler R → ServiceState) (put : ServiceState → Scheduler R → Scheduler R)
      (offer : Offer R) (r r' : Round R)
      → (shared_state service r.scheduler ≡ field r.scheduler)
        × ((v : ServiceState) (s : Scheduler R) → shared_state service (put v s) ≡ v)
      → start_shared flags ops persisted service_id
          (task_name service)
          rpc_port
          http_port
          field
          put
          offer
          r
        ≡ some r'
      → RoundLaunches service r r'
  start_own-RoundLaunches service service_id rpc_port http_port field put offer r r' (h, k) e =
      elim (start_shared-result service_id (task_name service) rpc_port http_port field put offer r
        r' e) [
          | inl same ↦ inl (rw same refl, rw same refl)
          | inr (task, named, more, down, now_up) ↦ inr (
            rw h down,
            rw (now_up, k _ _) refl,
            rw
                (
                  more,
                  count_named-append (task_name service) r.tasks (task ∷ []),
                  named,
                  eq_refl (task_name service),
                )
                (omega arith),
          )
        ]
