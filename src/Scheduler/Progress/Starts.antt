-- ===== src/Scheduler/Progress/Starts.antt =====
-- scheduler/scheduler.cpp: the start of services on a host with one device, for a registry, and with
-- no core service running.
use mesos_framework.Base.{
  ℕ, ◌+◌, String, ◌≡◌, ◌≢◌, refl, true, false, List, [], ◌∷◌, some, arith, Option-cases, Bool-cases,
  inl, inr, ◌==◌, get_or, >>=-eq-some,
}
use mesos_framework.Base.Text.{is_empty}
use mesos_framework.Base.Dict
use mesos_framework.Base.Dict.{Dict}
use mesos_framework.Flags.{Flags}
use mesos_framework.Proto.{DeviceType, ServiceTaskState, NodeState, SchedulerState}
use mesos_framework.Mesos.{TaskInfo, Offer, launch_tasks, ResourceOps}
use mesos_framework.Scheduler.Names.{registry_task, metadata_task, data_task, client_task, id_on}
use mesos_framework.Scheduler.Policy.{
  should_service_be_started, core_services_running, do_start_service,
}
use mesos_framework.Scheduler.State.{Scheduler}
use mesos_framework.Scheduler.Command.{u16, construct_docker_execute_command}
use mesos_framework.Scheduler.Task.{make_task}
use mesos_framework.Scheduler.Services.{
  Round, add_task, start_api, start_s3, start_console, start_client, start_core, start_device,
  start_devices, start_services,
}
use mesos_framework.Scheduler.Services.Crowded.{start_shared-idle}
use mesos_framework.Scheduler.Offers.{put_node, offer_to_services, new_round}
use mesos_framework.Scheduler.Offers.Readiness.{IsReady, make_task-total}
use mesos_framework.Scheduler.Progress.{At, put_node-At, empty-false}

-- The host has one device, for a registry that can be started, and no core service runs.
pub record AwaitsRegistry (n : NodeState) : Type 0 where
  pub valid : n.device_types_valid ≡ true
  pub devices : n.device_type ≡ DeviceType.registry ∷ []
  pub cores : core_services_running n ≡ 0
  pub stopped : should_service_be_started n.registry.state ≡ true

only_core :
    (n : NodeState) (service_type : String) (state : ServiceTaskState)
    → AwaitsRegistry n
    → (service_type == registry_task) ≡ false
    → (service_type == metadata_task) ≡ false
    → (service_type == data_task) ≡ false
    → do_start_service service_type n state ≡ false
unfolding do_start_service
only_core n service_type state h a b c = rw (h.valid, h.devices, h.cores, a, b, c) refl

registry_starts :
    (n : NodeState) → AwaitsRegistry n → do_start_service registry_task n n.registry.state ≡ true
unfolding do_start_service
registry_starts n h = rw (h.valid, h.devices, h.cores, h.stopped) refl

module _ {ℓ} {R : Type ℓ} (flags : Flags) (ready : IsReady flags) (ops : ResourceOps R)
    (persisted : SchedulerState) (offer : Offer R) where
  start_api-idle :
      (r : Round R) → AwaitsRegistry r.node → start_api flags ops persisted offer r ≡ some r
  unfolding start_api
  start_api-idle r h =
      start_shared-idle flags ops persisted offer _ _ _ _ _ _ r
        (only_core r.node _ _ h refl refl refl)

  start_console-idle :
      (r : Round R) → AwaitsRegistry r.node → start_console flags ops persisted offer r ≡ some r
  unfolding start_console
  start_console-idle r h =
      start_shared-idle flags ops persisted offer _ _ _ _ _ _ r
        (only_core r.node _ _ h refl refl refl)

  start_s3-idle :
      (r : Round R) → AwaitsRegistry r.node → start_s3 flags ops persisted offer r ≡ some r
  unfolding start_s3
  start_s3-idle r h = elim (Bool-cases (is_empty flags.s3_hostname)) [
    | inl off ↦ rw off refl
    | inr on ↦ rw on (
        start_shared-idle flags ops persisted offer _ _ _ _ _ _ r
          (only_core r.node _ _ h refl refl refl))
  ]

  start_client-idle :
      (r : Round R) → AwaitsRegistry r.node → start_client flags ops persisted offer r ≡ r
  unfolding start_client
  start_client-idle r h =
      ground (arith, only_core r.node client_task r.node.client.state h refl refl refl)

  make_task-task_id :
      (s : Scheduler R) (service_id name task_id host_name : String) (rpc_port http_port : ℕ)
      (slave_id : String) (task : TaskInfo R)
      → make_task flags ops persisted s service_id name task_id host_name rpc_port http_port
          slave_id
        ≡ some task
      → task.task_id ≡ task_id
  unfolding make_task
  make_task-task_id s service_id name task_id host_name rpc_port http_port slave_id task e =
      let (command, built, made) =
        >>=-eq-some
          (construct_docker_execute_command flags service_id host_name (u16 rpc_port)
            (u16 http_port))
          _ e in
      ground arith

  start_registry :
      (r : Round R) (needed : R)
      → AwaitsRegistry r.node
      → get_or ops.nothing (Dict.find registry_task r.scheduler.resources) ≡ needed
      → ops.contains r.remaining needed ≡ true
      → (task : TaskInfo R) × (start_device flags ops persisted DeviceType.registry offer r
          ≡ some (add_task flags ops persisted needed task r))
        × (task.task_id ≡ id_on "quobyte-registry" offer.hostname)
  unfolding start_device start_core
  start_registry r needed h known fits =
      let id = id_on "quobyte-registry" offer.hostname in
      let base = flags.port_range_base in
      elim (Option-cases (
        make_task flags ops persisted r.scheduler registry_task "quobyte-registry" id offer.hostname
          base (base + 1) offer.slave_id)) [
            | inl aborted ↦ absurd (
                make_task-total flags ready ops persisted r.scheduler registry_task
                  "quobyte-registry" id offer.hostname base (base + 1) offer.slave_id aborted)
            | inr (task, made) ↦ (
              task,
              rw (registry_starts r.node h, known, fits, made) refl,
              make_task-task_id r.scheduler registry_task "quobyte-registry" id offer.hostname base
                  (base + 1) offer.slave_id task made,
            )
          ]

  only_device :
      (ds : List DeviceType) (r r' : Round R)
      → ds ≡ DeviceType.registry ∷ []
      → start_device flags ops persisted DeviceType.registry offer r ≡ some r'
      → start_devices flags ops persisted ds offer r ≡ some r'
  unfolding start_devices
  only_device ds r r' e started = rw (e, started) refl

  -- The services that such a host is offered to: its registry alone is launched.
  pub services-AwaitsRegistry :
      (s : Scheduler R) (n : NodeState) (table : Dict R)
      → persisted.target_version ≢ ""
      → AwaitsRegistry n
      → At offer.hostname n table s
      → ops.contains offer.resources (get_or ops.nothing (Dict.find registry_task table)) ≡ true
      → (s' : Scheduler R) × (task : TaskInfo R) × (offer_to_services flags ops persisted offer n s
          ≡ some (s', launch_tasks offer.id (task ∷ []) ∷ []))
        × (task.task_id ≡ id_on "quobyte-registry" offer.hostname)
        × At offer.hostname n table s'
  unfolding offer_to_services start_services
  services-AwaitsRegistry s n table wanted h at fits =
      let needed = get_or ops.nothing (Dict.find registry_task table) in
      let r = new_round offer n s in
      let (task, started, named) = start_registry r needed h (rw at.1 refl) fits in
      let set = empty-false persisted.target_version wanted in
      let s' = put_node offer.hostname n s in
      (
        s',
        task,
        rw
            (
              set,
              start_api-idle r h,
              start_s3-idle r h,
              start_console-idle r h,
              start_client-idle r h,
              only_device n.device_type r _ h.devices started,
            )
            refl,
        named,
        put_node-At offer.hostname n n table s at,
      )
