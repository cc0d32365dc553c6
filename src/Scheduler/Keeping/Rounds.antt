-- ===== src/Scheduler/Keeping/Rounds.antt =====
-- scheduler/scheduler.cpp: running services, through a start of services.
use mesos_framework.Base.{
  ℕ, String, ◌≡◌, refl, ◌∙◌, ◌&&◌, List, [], ◌∷◌, some, arith, Option-cases, Bool-cases, inl, inr,
  >>=-eq-some, true,
}
use mesos_framework.Base.Text.{is_empty}
use mesos_framework.Flags.{Flags}
use mesos_framework.Proto.{DeviceType, ServiceState, NodeState, SchedulerState, not_running}
use mesos_framework.Mesos.{Offer, ResourceOps}
use mesos_framework.Scheduler.Names.{id_on, client_task}
use mesos_framework.Scheduler.Policy.{do_start_service}
use mesos_framework.Scheduler.Policy.Starting.{do_start_service_iff}
use mesos_framework.Scheduler.Task.{make_task}
use mesos_framework.Scheduler.State.{
  Scheduler, Service, resources_for, node_field, set_node_field, prober, registry, metadata,
  data_service, client,
}
use mesos_framework.Scheduler.Services.{
  Round, start_shared, start_api, start_s3, start_console, start_client, start_core, start_device,
  start_devices, start_services,
}
use mesos_framework.Scheduler.Services.Shared.{start_shared-result}
use mesos_framework.Scheduler.Services.Devices.{start_shared-node}
use mesos_framework.Scheduler.Keeping.{
  Keeps, Keeps-refl, Keeps-trans, NodeKeeps, NodeKeeps-refl, NodeKeeps-trans,
}

-- A service that is known not to run has nothing to keep.
not_running-Keeps : (v v' : ServiceState) → v.state ≡ not_running → Keeps v v'
not_running-Keeps v v' down up = cc

-- A change of the last message of a service keeps the node's tasks.
noted-NodeKeeps :
    (core : Service) (message : String) (n : NodeState)
    → NodeKeeps n (set_node_field core (record (node_field core n) { last_message = message }) n)
noted-NodeKeeps prober message n = NodeKeeps-refl n
noted-NodeKeeps registry message n = NodeKeeps-refl n
noted-NodeKeeps metadata message n = NodeKeeps-refl n
noted-NodeKeeps data_service message n = NodeKeeps-refl n
noted-NodeKeeps client message n = NodeKeeps-refl n
noted-NodeKeeps _ message n = NodeKeeps-refl n

module _ {ℓ} {R : Type ℓ} where
  -- The services that all hosts share.
  abbrev pub SharedKeep : Scheduler R → Scheduler R → Type 0
  SharedKeep s s' =
      Keeps s.api_state s'.api_state
      × Keeps s.console_state s'.console_state
      × Keeps s.s3_state s'.s3_state
      × (s'.nodes ≡ s.nodes)

  pub SharedKeep-refl : (s : Scheduler R) → SharedKeep s s
  SharedKeep-refl s =
      (Keeps-refl s.api_state, Keeps-refl s.console_state, Keeps-refl s.s3_state, refl)

  abbrev pub RoundKeeps : Round R → Round R → Type 0
  RoundKeeps r r' = SharedKeep r.scheduler r'.scheduler × NodeKeeps r.node r'.node

  pub RoundKeeps-refl : (r : Round R) → RoundKeeps r r
  RoundKeeps-refl r = (SharedKeep-refl r.scheduler, NodeKeeps-refl r.node)

  pub RoundKeeps-trans :
      (r r' r'' : Round R) → RoundKeeps r r' → RoundKeeps r' r'' → RoundKeeps r r''
  RoundKeeps-trans r r' r'' ((a, b, c, e), h) ((a', b', c', e'), h') = (
    (
      Keeps-trans r.scheduler.api_state r'.scheduler.api_state r''.scheduler.api_state a a',
      Keeps-trans r.scheduler.console_state r'.scheduler.console_state r''.scheduler.console_state b
          b',
      Keeps-trans r.scheduler.s3_state r'.scheduler.s3_state r''.scheduler.s3_state c c',
      e' ∙ e,
    ),
    NodeKeeps-trans r.node r'.node r''.node h h',
  )

module _ {ℓ} {R : Type ℓ} (flags : Flags) (ops : ResourceOps R) (persisted : SchedulerState)
    (offer : Offer R) where
  start_shared-RoundKeeps :
      (service_id name : String) (rpc_port http_port : ℕ) (field : Scheduler R → ServiceState)
      (put : ServiceState → Scheduler R → Scheduler R) (r r' : Round R)
      → ((v : ServiceState) (s : Scheduler R)
          → (field s).state ≡ not_running
          → SharedKeep s (put v s))
      → start_shared flags ops persisted service_id name rpc_port http_port field put offer r
        ≡ some r'
      → RoundKeeps r r'
  start_shared-RoundKeeps service_id name rpc_port http_port field put r r' keeps e =
      let same_node =
        start_shared-node flags ops persisted offer service_id name _ _ field put r r' e in
      (
        elim (start_shared-result flags ops persisted service_id name _ _ field put offer r r' e) [
          | inl same ↦ rw same (SharedKeep-refl r.scheduler)
          | inr (task, named, more, was_down, now_up) ↦ rw now_up (keeps _ r.scheduler was_down)
        ],
        rw same_node (NodeKeeps-refl r.node),
      )

  start_s3-RoundKeeps :
      (r r' : Round R) → start_s3 flags ops persisted offer r ≡ some r' → RoundKeeps r r'
  unfolding start_s3
  start_s3-RoundKeeps r r' e = elim (Bool-cases (is_empty flags.s3_hostname)) [
    | inl off ↦ let same : r ≡ r' = ground arith in rw (← same) (RoundKeeps-refl r)
    | inr on ↦
        start_shared-RoundKeeps _ _ _ _ _ _ r r'
          (λ v s down. (
            Keeps-refl s.api_state,
            Keeps-refl s.console_state,
            not_running-Keeps s.s3_state v down,
            refl,
          ))
          (rw (on, start_s3) at e)
  ]

  start_client-RoundKeeps : (r : Round R) → RoundKeeps r (start_client flags ops persisted offer r)
  unfolding start_client
  start_client-RoundKeeps r =
      elim (Bool-cases (
        ops.contains r.remaining (resources_for flags ops client_task r.scheduler)
        && do_start_service client_task r.node r.node.client.state
        && r.node.client_mount_point)) [
          | inr kept ↦ rw (kept, start_client) (RoundKeeps-refl r)
          | inl wanted ↦
              let starts : do_start_service client_task r.node r.node.client.state ≡ true =
                ground arith in
              let down = ((do_start_service_iff client_task r.node _).0 starts).1 in
              let (a, b, c, d, e, f, g) = NodeKeeps-refl r.node in
              rw (wanted, start_client)
                (SharedKeep-refl r.scheduler, (a, b, c, d, (λ up. cc), f, g))
        ]

  start_core-RoundKeeps :
      (service_id name : String) (rpc_port http_port : ℕ) (core : Service) (message : String)
      (r r' : Round R)
      → start_core flags ops persisted service_id name rpc_port http_port core message offer r
        ≡ some r'
      → RoundKeeps r r'
  unfolding start_core
  start_core-RoundKeeps service_id name rpc_port http_port core message r r' e =
      elim (Bool-cases (do_start_service service_id r.node (node_field core r.node).state)) [
        | inr kept ↦ let same : r ≡ r' = ground arith in rw (← same) (RoundKeeps-refl r)
        | inl wanted ↦
            elim (Bool-cases
              (ops.contains r.remaining (resources_for flags ops service_id r.scheduler))) [
                | inr poor ↦
                    let noted : record r {
                      node =
                          set_node_field core
                            (record (node_field core r.node) { last_message = message }) r.node;
                    }
                        ≡ r' =
                      ground arith in
                    rw (← noted) (SharedKeep-refl r.scheduler, noted-NodeKeeps core message r.node)
                | inl rich ↦
                    elim (Option-cases (
                      make_task flags ops persisted r.scheduler service_id name
                        (id_on name offer.hostname) offer.hostname rpc_port http_port
                        offer.slave_id)) [
                          | inl aborted ↦ absurd (ground arith)
                          | inr (task, made) ↦
                              let same : (r'.scheduler ≡ r.scheduler) × (r'.node ≡ r.node) =
                                (ground arith, ground arith) in
                              (
                                rw same.0 (SharedKeep-refl r.scheduler),
                                rw same.1 (NodeKeeps-refl r.node),
                              )
                        ]
              ]
      ]

  start_device-RoundKeeps :
      (d : DeviceType) (r r' : Round R)
      → start_device flags ops persisted d offer r ≡ some r'
      → RoundKeeps r r'
  unfolding start_device
  start_device-RoundKeeps DeviceType.registry r r' e = start_core-RoundKeeps _ _ _ _ _ _ r r' e
  start_device-RoundKeeps DeviceType.metadata r r' e = start_core-RoundKeeps _ _ _ _ _ _ r r' e
  start_device-RoundKeeps DeviceType.data_device r r' e = start_core-RoundKeeps _ _ _ _ _ _ r r' e
  start_device-RoundKeeps _ r r' e =
      let same : r ≡ r' = ground arith in rw (← same) (RoundKeeps-refl r)

  start_devices-RoundKeeps :
      (ds : List DeviceType) (r r' : Round R)
      → start_devices flags ops persisted ds offer r ≡ some r'
      → RoundKeeps r r'
  unfolding start_devices
  start_devices-RoundKeeps [] r r' e =
      let same : r ≡ r' = ground arith in rw (← same) (RoundKeeps-refl r)
  start_devices-RoundKeeps (d ∷ ds) r r' e =
      let (r₁, first, rest) = >>=-eq-some (start_device flags ops persisted d offer r) _ e in
      RoundKeeps-trans r r₁ r' (start_device-RoundKeeps d r r₁ first)
        (start_devices-RoundKeeps ds r₁ r' rest)

  pub start_services-RoundKeeps :
      (r r' : Round R) → start_services flags ops persisted offer r ≡ some r' → RoundKeeps r r'
  unfolding start_services start_api start_console
  start_services-RoundKeeps r r' e =
      let (r₁, e₁, k₁) = >>=-eq-some (start_api flags ops persisted offer r) _ e in
      let (r₂, e₂, k₂) = >>=-eq-some (start_s3 flags ops persisted offer r₁) _ k₁ in
      let (r₃, e₃, k₃) = >>=-eq-some (start_console flags ops persisted offer r₂) _ k₂ in
      let r₄ = start_client flags ops persisted offer r₃ in
      let api_kept =
        start_shared-RoundKeeps _ _ _ _ _ _ r r₁
          (λ v s down. (
            not_running-Keeps s.api_state v down,
            Keeps-refl s.console_state,
            Keeps-refl s.s3_state,
            refl,
          ))
          e₁ in
      let console_kept =
        start_shared-RoundKeeps _ _ _ _ _ _ r₂ r₃
          (λ v s down. (
            Keeps-refl s.api_state,
            not_running-Keeps s.console_state v down,
            Keeps-refl s.s3_state,
            refl,
          ))
          e₃ in
      RoundKeeps-trans r r₁ r' api_kept (
        RoundKeeps-trans r₁ r₂ r' (start_s3-RoundKeeps r₁ r₂ e₂) (
          RoundKeeps-trans r₂ r₃ r' console_kept (
            RoundKeeps-trans r₃ r₄ r' (start_client-RoundKeeps r₃)
              (start_devices-RoundKeeps r₄.node.device_type r₄ r' k₃))))
