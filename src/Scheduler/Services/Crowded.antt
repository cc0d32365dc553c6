-- ===== src/Scheduler/Services/Crowded.antt =====
-- scheduler/scheduler.cpp: the start of services on a host that has more devices than there are kinds
-- of core services.
use mesos_framework.Base.{
  ℕ, String, ◌≡◌, refl, ◌⊎◌, inl, inr, false, ◌<◌, List, [], ◌∷◌, ◌++◌, some, arith, All,
  All-append, Bool-cases, >>=-eq-some, length,
}
use mesos_framework.Base.Text.{is_empty}
use mesos_framework.Flags.{Flags}
use mesos_framework.Proto.{DeviceType, ServiceState, SchedulerState}
use mesos_framework.Mesos.{Offer, TaskInfo, ResourceOps}
use mesos_framework.Scheduler.Names.{api_task, s3_task, webconsole_task, client_task, id_on}
use mesos_framework.Scheduler.Policy.{do_start_service}
use mesos_framework.Scheduler.Policy.Starting.{crowded_host}
use mesos_framework.Scheduler.Command.{u16, construct_docker_execute_command}
use mesos_framework.Scheduler.State.{
  Scheduler, Service, registry, metadata, data_service, node_field, resources_for,
}
use mesos_framework.Scheduler.Task.{make_task}
use mesos_framework.Scheduler.Services.{
  Round, start_shared, start_api, start_s3, start_console, start_client, start_core, start_device,
  start_devices, start_services,
}

-- A task of a service that needs a device.
abbrev pub IsCoreTask {ℓ} : {R : Type ℓ} → TaskInfo R → Type 0
IsCoreTask task =
    (task.name ≡ "quobyte-registry")
    ⊎ (task.name ≡ "quobyte-metadata")
    ⊎ (task.name ≡ "quobyte-data")

module _ {ℓ} {R : Type ℓ} (flags : Flags) (ops : ResourceOps R) (persisted : SchedulerState)
    (offer : Offer R) where
  pub start_shared-idle :
      (service_id name : String) (rpc_port http_port : ℕ) (field : Scheduler R → ServiceState)
      (put : ServiceState → Scheduler R → Scheduler R) (r : Round R)
      → do_start_service service_id r.node (field r.scheduler).state ≡ false
      → start_shared flags ops persisted service_id name rpc_port http_port field put offer r
        ≡ some r
  unfolding start_shared
  start_shared-idle service_id name rpc_port http_port field put r h = ground arith

  abbrev IsCrowded : Round R → Type 0
  IsCrowded r = 3 < length r.node.device_type

  start_api-crowded : (r : Round R) → IsCrowded r → start_api flags ops persisted offer r ≡ some r
  unfolding start_api
  start_api-crowded r h =
      start_shared-idle _ _ _ _ _ _ r
        (crowded_host api_task r.node _ h (λ e. cc) (λ e. cc) (λ e. cc))

  start_console-crowded :
      (r : Round R) → IsCrowded r → start_console flags ops persisted offer r ≡ some r
  unfolding start_console
  start_console-crowded r h =
      start_shared-idle _ _ _ _ _ _ r
        (crowded_host webconsole_task r.node _ h (λ e. cc) (λ e. cc) (λ e. cc))

  start_s3-crowded : (r : Round R) → IsCrowded r → start_s3 flags ops persisted offer r ≡ some r
  unfolding start_s3
  start_s3-crowded r h = elim (Bool-cases (is_empty flags.s3_hostname)) [
    | inl off ↦ rw off refl
    | inr on ↦ rw on (
        start_shared-idle _ _ _ _ _ _ r
          (crowded_host s3_task r.node _ h (λ e. cc) (λ e. cc) (λ e. cc)))
  ]

  start_client-crowded : (r : Round R) → IsCrowded r → start_client flags ops persisted offer r ≡ r
  unfolding start_client
  start_client-crowded r h =
      ground
        (arith, crowded_host client_task r.node r.node.client.state h (λ e. cc) (λ e. cc) (λ e. cc))

  make_task-name :
      (s : Scheduler R) (service_id name task_id host_name : String) (rpc_port http_port : ℕ)
      (slave_id : String) (task : TaskInfo R)
      → make_task flags ops persisted s service_id name task_id host_name rpc_port http_port
          slave_id
        ≡ some task
      → task.name ≡ name
  unfolding make_task
  make_task-name s service_id name task_id host_name rpc_port http_port slave_id task e =
      let (command, built, made) =
        >>=-eq-some
          (construct_docker_execute_command flags service_id host_name (u16 rpc_port)
            (u16 http_port))
          _ e in
      ground arith

  start_core-IsCoreTask :
      (name : String) (core : Service) (service_id : String) (rpc_port http_port : ℕ)
      (message : String) (r r' : Round R)
      → (name ≡ "quobyte-registry") ⊎ (name ≡ "quobyte-metadata") ⊎ (name ≡ "quobyte-data")
      → start_core flags ops persisted service_id name rpc_port http_port core message offer r
        ≡ some r'
      → All IsCoreTask r.tasks
      → All IsCoreTask r'.tasks
  unfolding start_core
  start_core-IsCoreTask name core service_id rpc_port http_port message r r' k e h =
      elim (Bool-cases (do_start_service service_id r.node (node_field core r.node).state)) [
        | inr kept ↦ let same : r ≡ r' = ground arith in rw (← same) h
        | inl wanted ↦
            elim (Bool-cases
              (ops.contains r.remaining (resources_for flags ops service_id r.scheduler))) [
                | inr poor ↦ let same : r.tasks ≡ r'.tasks = ground arith in rw (← same) h
                | inl rich ↦
                    let (task, made, rest) =
                      >>=-eq-some
                        (make_task flags ops persisted r.scheduler service_id name
                          (id_on name offer.hostname) offer.hostname rpc_port http_port
                          offer.slave_id)
                        _ (rw (wanted, rich, start_core) at e) in
                    let named =
                      make_task-name r.scheduler service_id name _ _ rpc_port http_port _ task
                        made in
                    let more : r.tasks ++ task ∷ [] ≡ r'.tasks = ground arith in
                    rw (← more) (All-append IsCoreTask r.tasks (task ∷ []) h (rw named k, tt))
              ]
      ]

  start_device-IsCoreTask :
      (d : DeviceType) (r r' : Round R)
      → start_device flags ops persisted d offer r ≡ some r'
      → All IsCoreTask r.tasks
      → All IsCoreTask r'.tasks
  unfolding start_device
  start_device-IsCoreTask DeviceType.registry r r' e h =
      start_core-IsCoreTask "quobyte-registry" registry _ _ _ _ r r' (inl refl) e h
  start_device-IsCoreTask DeviceType.metadata r r' e h =
      start_core-IsCoreTask "quobyte-metadata" metadata _ _ _ _ r r' (inr (inl refl)) e h
  start_device-IsCoreTask DeviceType.data_device r r' e h =
      start_core-IsCoreTask "quobyte-data" data_service _ _ _ _ r r' (inr (inr refl)) e h
  start_device-IsCoreTask _ r r' e h = let same : r ≡ r' = ground arith in rw (← same) h

  start_devices-IsCoreTask :
      (ds : List DeviceType) (r r' : Round R)
      → start_devices flags ops persisted ds offer r ≡ some r'
      → All IsCoreTask r.tasks
      → All IsCoreTask r'.tasks
  unfolding start_devices
  start_devices-IsCoreTask [] r r' e h = let same : r ≡ r' = ground arith in rw (← same) h
  start_devices-IsCoreTask (d ∷ ds) r r' e h =
      let (r₁, first, rest) = >>=-eq-some (start_device flags ops persisted d offer r) _ e in
      start_devices-IsCoreTask ds r₁ r' rest (start_device-IsCoreTask d r r₁ first h)

  pub start_services-IsCoreTask :
      (r r' : Round R)
      → IsCrowded r
      → start_services flags ops persisted offer r ≡ some r'
      → All IsCoreTask r.tasks
      → All IsCoreTask r'.tasks
  unfolding start_services
  start_services-IsCoreTask r r' crowded e h =
      start_devices-IsCoreTask r.node.device_type r r'
        (rw
          (
            start_services,
            start_api-crowded r crowded,
            start_s3-crowded r crowded,
            start_console-crowded r crowded,
            start_client-crowded r crowded,
          )
          at e)
        h
