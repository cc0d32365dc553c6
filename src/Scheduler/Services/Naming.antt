-- ===== src/Scheduler/Services/Naming.antt =====
-- scheduler/scheduler.cpp: the names, the ids and the slaves of the tasks that a start of services
-- launches.
use mesos_framework.Base.{
  ℕ, String, ◌≡◌, refl, ◌&&◌, List, [], ◌∷◌, ◌++◌, some, arith, All, All-append, Bool-cases, inl,
  inr, >>=-eq-some,
}
use mesos_framework.Base.Text.{is_empty}
use mesos_framework.Flags.{Flags}
use mesos_framework.Proto.{DeviceType, ServiceState, SchedulerState}
use mesos_framework.Mesos.{Offer, TaskInfo, ResourceOps}
use mesos_framework.Scheduler.Names.{client_task, id_on}
use mesos_framework.Scheduler.Policy.{do_start_service}
use mesos_framework.Scheduler.Command.{u16, construct_docker_execute_command}
use mesos_framework.Scheduler.State.{
  Scheduler, Service, api, s3, console, registry, metadata, data_service, client, node_field,
  resources_for,
}
use mesos_framework.Scheduler.State.Fields.{task_name}
use mesos_framework.Scheduler.Task.{create_client_task_info, make_task}
use mesos_framework.Scheduler.Services.{
  Round, role_allows, start_shared, start_api, start_s3, start_console, start_client, start_core,
  start_device, start_devices, start_services,
}

module _ {ℓ} {R : Type ℓ} where
  -- A task of a service on the host and the slave of an offer, under the id that `statusUpdate`
  -- takes apart.
  abbrev pub IsNamed : Offer R → TaskInfo R → Type 0
  IsNamed offer task =
      (service : Service) × (task.name ≡ task_name service)
      × (task.task_id ≡ id_on (task_name service) offer.hostname)
      × (task.slave_id ≡ offer.slave_id)

  abbrev RoundIsNamed : Offer R → Round R → Type 0
  RoundIsNamed offer r = All (IsNamed offer) r.tasks

module _ {ℓ} {R : Type ℓ} (flags : Flags) (ops : ResourceOps R) (persisted : SchedulerState)
    (offer : Offer R) where
  make_task-IsNamed :
      (s : Scheduler R) (service : Service) (service_id : String) (rpc_port http_port : ℕ)
      (task : TaskInfo R)
      → make_task flags ops persisted s service_id
          (task_name service)
          (id_on (task_name service) offer.hostname)
          offer.hostname
          rpc_port
          http_port
          offer.slave_id
        ≡ some task
      → IsNamed offer task
  unfolding make_task
  make_task-IsNamed s service service_id rpc_port http_port task e =
      let (command, built, made) =
        >>=-eq-some
          (construct_docker_execute_command flags service_id offer.hostname (u16 rpc_port)
            (u16 http_port))
          _ e in
      (service, ground arith, ground arith, ground arith)

  add-IsNamed :
      (r r' : Round R) (task : TaskInfo R)
      → r'.tasks ≡ r.tasks ++ task ∷ []
      → IsNamed offer task
      → RoundIsNamed offer r
      → RoundIsNamed offer r'
  add-IsNamed r r' task more named h =
      rw more (All-append (IsNamed offer) r.tasks (task ∷ []) h (named, tt))

  start_shared-IsNamed :
      (service : Service) (service_id : String) (rpc_port http_port : ℕ)
      (field : Scheduler R → ServiceState) (put : ServiceState → Scheduler R → Scheduler R)
      (r r' : Round R)
      → start_shared flags ops persisted service_id
          (task_name service)
          rpc_port
          http_port
          field
          put
          offer
          r
        ≡ some r'
      → RoundIsNamed offer r
      → RoundIsNamed offer r'
  unfolding start_shared
  start_shared-IsNamed service service_id rpc_port http_port field put r r' e h =
      elim (Bool-cases (
        ops.contains r.remaining (resources_for flags ops service_id r.scheduler)
        && do_start_service service_id r.node (field r.scheduler).state
        && role_allows flags ops persisted r.remaining)) [
          | inr kept ↦ let same : r ≡ r' = ground arith in rw (← same) h
          | inl wanted ↦
              let (task, made, rest) =
                >>=-eq-some
                  (make_task flags ops persisted r.scheduler service_id (task_name service)
                    (id_on (task_name service) offer.hostname) offer.hostname rpc_port http_port
                    offer.slave_id)
                  _ (rw (wanted, start_shared) at e) in
              add-IsNamed r r' task (ground arith)
                (make_task-IsNamed r.scheduler service service_id rpc_port http_port task made) h
        ]

  start_s3-IsNamed :
      (r r' : Round R)
      → start_s3 flags ops persisted offer r ≡ some r'
      → RoundIsNamed offer r
      → RoundIsNamed offer r'
  unfolding start_s3
  start_s3-IsNamed r r' e h = elim (Bool-cases (is_empty flags.s3_hostname)) [
    | inl off ↦ let same : r ≡ r' = ground arith in rw (← same) h
    | inr on ↦ start_shared-IsNamed s3 _ _ _ _ _ r r' (rw (on, start_s3) at e) h
  ]

  start_client-IsNamed :
      (r : Round R)
      → RoundIsNamed offer r
      → RoundIsNamed offer (start_client flags ops persisted offer r)
  unfolding start_client create_client_task_info
  start_client-IsNamed r h =
      elim (Bool-cases (
        ops.contains r.remaining (resources_for flags ops client_task r.scheduler)
        && do_start_service client_task r.node r.node.client.state
        && r.node.client_mount_point)) [
          | inr kept ↦ rw (kept, start_client) h
          | inl wanted ↦
              rw (wanted, start_client)
                (All-append (IsNamed offer) r.tasks _ h ((client, refl, refl, refl), tt))
        ]

  start_core-IsNamed :
      (core : Service) (service_id : String) (rpc_port http_port : ℕ) (message : String)
      (r r' : Round R)
      → start_core flags ops persisted service_id
          (task_name core)
          rpc_port
          http_port
          core
          message
          offer
          r
        ≡ some r'
      → RoundIsNamed offer r
      → RoundIsNamed offer r'
  unfolding start_core
  start_core-IsNamed core service_id rpc_port http_port message r r' e h =
      elim (Bool-cases (do_start_service service_id r.node (node_field core r.node).state)) [
        | inr kept ↦ let same : r ≡ r' = ground arith in rw (← same) h
        | inl wanted ↦
            elim (Bool-cases
              (ops.contains r.remaining (resources_for flags ops service_id r.scheduler))) [
                | inr poor ↦ let same : r.tasks ≡ r'.tasks = ground arith in rw (← same) h
                | inl rich ↦
                    let (task, made, rest) =
                      >>=-eq-some
                        (make_task flags ops persisted r.scheduler service_id (task_name core)
                          (id_on (task_name core) offer.hostname) offer.hostname rpc_port http_port
                          offer.slave_id)
                        _ (rw (wanted, rich, start_core) at e) in
                    add-IsNamed r r' task (ground arith)
                      (make_task-IsNamed r.scheduler core service_id rpc_port http_port task made) h
              ]
      ]

  start_device-IsNamed :
      (d : DeviceType) (r r' : Round R)
      → start_device flags ops persisted d offer r ≡ some r'
      → RoundIsNamed offer r
      → RoundIsNamed offer r'
  unfolding start_device
  start_device-IsNamed DeviceType.registry r r' e h = start_core-IsNamed registry _ _ _ _ r r' e h
  start_device-IsNamed DeviceType.metadata r r' e h = start_core-IsNamed metadata _ _ _ _ r r' e h
  start_device-IsNamed DeviceType.data_device r r' e h =
      start_core-IsNamed data_service _ _ _ _ r r' e h
  start_device-IsNamed _ r r' e h = let same : r ≡ r' = ground arith in rw (← same) h

  start_devices-IsNamed :
      (ds : List DeviceType) (r r' : Round R)
      → start_devices flags ops persisted ds offer r ≡ some r'
      → RoundIsNamed offer r
      → RoundIsNamed offer r'
  unfolding start_devices
  start_devices-IsNamed [] r r' e h = let same : r ≡ r' = ground arith in rw (← same) h
  start_devices-IsNamed (d ∷ ds) r r' e h =
      let (r₁, first, rest) = >>=-eq-some (start_device flags ops persisted d offer r) _ e in
      start_devices-IsNamed ds r₁ r' rest (start_device-IsNamed d r r₁ first h)

  pub start_services-IsNamed :
      (r r' : Round R)
      → start_services flags ops persisted offer r ≡ some r'
      → All (IsNamed offer) r.tasks
      → All (IsNamed offer) r'.tasks
  unfolding start_services start_api start_console
  start_services-IsNamed r r' e h =
      let (r₁, e₁, k₁) = >>=-eq-some (start_api flags ops persisted offer r) _ e in
      let (r₂, e₂, k₂) = >>=-eq-some (start_s3 flags ops persisted offer r₁) _ k₁ in
      let (r₃, e₃, k₃) = >>=-eq-some (start_console flags ops persisted offer r₂) _ k₂ in
      let r₄ = start_client flags ops persisted offer r₃ in
      let h₁ = start_shared-IsNamed api _ _ _ _ _ r r₁ e₁ h in
      let h₂ = start_s3-IsNamed r₁ r₂ e₂ h₁ in
      let h₃ = start_shared-IsNamed console _ _ _ _ _ r₂ r₃ e₃ h₂ in
      start_devices-IsNamed r₄.node.device_type r₄ r' k₃ (start_client-IsNamed r₃ h₃)
