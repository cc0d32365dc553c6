-- ===== src/Scheduler/Tracking/Rounds.antt =====
-- scheduler/scheduler.cpp: tasks on record, through a start of services.
use Prim.Native.String.{◌++◌ as append, len}
use text.Mathlib.TextPositions.{len-append}
use mesos_framework.Base.{
  ℕ, String, ◌≡◌, ◌≢◌, ap, ◌&&◌, List, [], ◌∷◌, some, arith, Option-cases, Bool-cases, inl, inr,
  >>=-eq-some,
}
use mesos_framework.Base.Text.{is_empty}
use mesos_framework.Flags.{Flags}
use mesos_framework.Proto.{DeviceType, ServiceState, NodeState, SchedulerState}
use mesos_framework.Mesos.{Offer, ResourceOps}
use mesos_framework.Scheduler.Names.{id_on, client_task}
use mesos_framework.Scheduler.Policy.{do_start_service}
use mesos_framework.Scheduler.Task.{make_task}
use mesos_framework.Scheduler.State.{Scheduler, Service, resources_for, node_field, set_node_field}
use mesos_framework.Scheduler.Services.{
  Round, start_shared, start_api, start_s3, start_console, start_client, start_core, start_device,
  start_devices, start_services,
}
use mesos_framework.Scheduler.Services.Shared.{start_shared-result}
use mesos_framework.Scheduler.Services.Devices.{start_shared-node}
use mesos_framework.Scheduler.Tracking.{
  IsTracked, NodeIsTracked, SchedulerIsTracked, set_node_field-NodeIsTracked,
}

-- The id of a task is not empty.
pub id_on-filled : (name hostname : String) → id_on name hostname ≢ ""
id_on-filled name hostname e =
    let none_left : len (id_on name hostname) ≡ 0 = ap len e in
    omega (arith, none_left, len-append name (append "-" hostname), len-append "-" hostname)

module _ {ℓ} {R : Type ℓ} (flags : Flags) (ops : ResourceOps R) (persisted : SchedulerState)
    (offer : Offer R) where
  abbrev pub RoundIsTracked : Round R → Type 0
  RoundIsTracked r = SchedulerIsTracked r.scheduler × NodeIsTracked r.node

  start_shared-RoundIsTracked :
      (service_id name : String) (rpc_port http_port : ℕ) (field : Scheduler R → ServiceState)
      (put : ServiceState → Scheduler R → Scheduler R) (r r' : Round R)
      → ((v : ServiceState) (s : Scheduler R)
          → IsTracked v
          → SchedulerIsTracked s
          → SchedulerIsTracked (put v s))
      → start_shared flags ops persisted service_id name rpc_port http_port field put offer r
        ≡ some r'
      → RoundIsTracked r
      → RoundIsTracked r'
  start_shared-RoundIsTracked service_id name rpc_port http_port field put r r' keeps e (h, n) = (
    elim (start_shared-result flags ops persisted service_id name _ _ field put offer r r' e) [
      | inl same ↦ rw same h
      | inr (task, named, more, was_down, now_up) ↦
          rw now_up (keeps _ r.scheduler (λ _. id_on-filled name offer.hostname) h)
    ],
    rw (start_shared-node flags ops persisted offer service_id name _ _ field put r r' e) n,
  )

  start_s3-RoundIsTracked :
      (r r' : Round R)
      → start_s3 flags ops persisted offer r ≡ some r'
      → RoundIsTracked r
      → RoundIsTracked r'
  unfolding start_s3
  start_s3-RoundIsTracked r r' e h = elim (Bool-cases (is_empty flags.s3_hostname)) [
    | inl off ↦ let same : r ≡ r' = ground arith in rw (← same) h
    | inr on ↦
        start_shared-RoundIsTracked _ _ _ _ _ _ r r' (λ v s p (a, b, c, k). (a, b, p, k))
          (rw (on, start_s3) at e) h
  ]

  start_client-RoundIsTracked :
      (r : Round R) → RoundIsTracked r → RoundIsTracked (start_client flags ops persisted offer r)
  unfolding start_client
  start_client-RoundIsTracked r (h, (a, b, c, d, e)) =
      elim (Bool-cases (
        ops.contains r.remaining (resources_for flags ops client_task r.scheduler)
        && do_start_service client_task r.node r.node.client.state
        && r.node.client_mount_point)) [
          | inr kept ↦ rw (kept, start_client) (h, (a, b, c, d, e))
          | inl wanted ↦
              rw (wanted, start_client)
                (h, (a, b, c, d, λ _. id_on-filled "quobyte-client" offer.hostname))
        ]

  -- A case of the `switch` may set the last message of a service, and nothing else of the node.
  start_core-RoundIsTracked :
      (service_id name : String) (rpc_port http_port : ℕ) (core : Service) (message : String)
      (r r' : Round R)
      → ((n : NodeState) → NodeIsTracked n → IsTracked (node_field core n))
      → start_core flags ops persisted service_id name rpc_port http_port core message offer r
        ≡ some r'
      → RoundIsTracked r
      → RoundIsTracked r'
  unfolding start_core
  start_core-RoundIsTracked service_id name rpc_port http_port core message r r' reads e (h, n) =
      elim (Bool-cases (do_start_service service_id r.node (node_field core r.node).state)) [
        | inr kept ↦ let same : r ≡ r' = ground arith in rw (← same) (h, n)
        | inl wanted ↦
            elim (Bool-cases
              (ops.contains r.remaining (resources_for flags ops service_id r.scheduler))) [
                | inr poor ↦
                    let noted : record r {
                      node =
                          set_node_field core
                            (record (node_field core r.node) { last_message = message }) r.node;
                    }
                        ≡ r' =
                      ground arith in
                    rw (← noted) (h, set_node_field-NodeIsTracked core _ r.node (reads r.node n) n)
                | inl rich ↦
                    elim (Option-cases (
                      make_task flags ops persisted r.scheduler service_id name
                        (id_on name offer.hostname) offer.hostname rpc_port http_port
                        offer.slave_id)) [
                          | inl aborted ↦ absurd (ground arith)
                          | inr (task, made) ↦
                              let same : (r'.scheduler ≡ r.scheduler) × (r'.node ≡ r.node) =
                                (ground arith, ground arith) in
                              (rw same.0 h, rw same.1 n)
                        ]
              ]
      ]

  start_device-RoundIsTracked :
      (d : DeviceType) (r r' : Round R)
      → start_device flags ops persisted d offer r ≡ some r'
      → RoundIsTracked r
      → RoundIsTracked r'
  unfolding start_device
  start_device-RoundIsTracked DeviceType.registry r r' e h =
      start_core-RoundIsTracked _ _ _ _ _ _ r r' (λ n (a, b, c, d, k). b) e h
  start_device-RoundIsTracked DeviceType.metadata r r' e h =
      start_core-RoundIsTracked _ _ _ _ _ _ r r' (λ n (a, b, c, d, k). c) e h
  start_device-RoundIsTracked DeviceType.data_device r r' e h =
      start_core-RoundIsTracked _ _ _ _ _ _ r r' (λ n (a, b, c, d, k). d) e h
  start_device-RoundIsTracked DeviceType.bootstrap r r' e h =
      let same : r ≡ r' = ground arith in rw (← same) h
  start_device-RoundIsTracked DeviceType.client r r' e h =
      let same : r ≡ r' = ground arith in rw (← same) h

  start_devices-RoundIsTracked :
      (ds : List DeviceType) (r r' : Round R)
      → start_devices flags ops persisted ds offer r ≡ some r'
      → RoundIsTracked r
      → RoundIsTracked r'
  unfolding start_devices
  start_devices-RoundIsTracked [] r r' e h = let same : r ≡ r' = ground arith in rw (← same) h
  start_devices-RoundIsTracked (d ∷ ds) r r' e h =
      let (r₁, first, rest) = >>=-eq-some (start_device flags ops persisted d offer r) _ e in
      start_devices-RoundIsTracked ds r₁ r' rest (start_device-RoundIsTracked d r r₁ first h)

  pub start_services-RoundIsTracked :
      (r r' : Round R)
      → start_services flags ops persisted offer r ≡ some r'
      → RoundIsTracked r
      → RoundIsTracked r'
  unfolding start_services start_api start_console
  start_services-RoundIsTracked r r' e h =
      let (r₁, e₁, k₁) = >>=-eq-some (start_api flags ops persisted offer r) _ e in
      let (r₂, e₂, k₂) = >>=-eq-some (start_s3 flags ops persisted offer r₁) _ k₁ in
      let (r₃, e₃, k₃) = >>=-eq-some (start_console flags ops persisted offer r₂) _ k₂ in
      let h₁ =
        start_shared-RoundIsTracked _ _ _ _ _ _ r r₁ (λ v s p (a, b, c, k). (p, b, c, k)) e₁ h in
      let h₂ = start_s3-RoundIsTracked r₁ r₂ e₂ h₁ in
      let h₃ =
        start_shared-RoundIsTracked _ _ _ _ _ _ r₂ r₃ (λ v s p (a, b, c, k). (a, p, c, k)) e₃ h₂ in
      start_devices-RoundIsTracked _ _ r' k₃ (start_client-RoundIsTracked r₃ h₃)
