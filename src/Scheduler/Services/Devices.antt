-- ===== src/Scheduler/Services/Devices.antt =====
-- scheduler/scheduler.cpp: the services that need a device.
use mesos_framework.Base.{
  ℕ, ◌+◌, ◌≤◌, String, ◌≡◌, refl, inl, inr, true, false, ◌&&◌, some, arith, ◌==◌, >>=-eq-some, ◌∙◌,
  ap, Option-cases, Bool-cases, Ensures,
}
use mesos_framework.Base.Text.{is_empty}
use mesos_framework.Flags.{Flags}
use mesos_framework.Proto.{DeviceType, ServiceState, NodeState, SchedulerState}
use mesos_framework.Mesos.{Offer, ResourceOps}
use mesos_framework.Scheduler.Names.{id_on, client_task}
use mesos_framework.Scheduler.Policy.{do_start_service}
use mesos_framework.Scheduler.Task.{make_task}
use mesos_framework.Scheduler.State.{Scheduler, resources_for}
use mesos_framework.Scheduler.Services.{
  Round, start_shared, start_api, start_s3, start_console, start_client, role_allows,
  start_services,
}
use mesos_framework.Scheduler.Offers.{new_round}
use mesos_framework.Scheduler.Services.Counts.{count_named, count_named_other}
use mesos_framework.Scheduler.Services.Shared.{start_shared-result}
use mesos_framework.Scheduler.Services.Cores.{
  count_type, core_name, is_core, core_name_other, start_devices-count,
}

module _ {ℓ} {R : Type ℓ} (flags : Flags) (ops : ResourceOps R) (persisted : SchedulerState)
    (offer : Offer R) where
  -- What a step before the devices keeps: the list of them, and the count of a core service.
  abbrev KeepsDevices : DeviceType → Round R → Round R → Type 0
  KeepsDevices t r r' =
      (r'.node.device_type ≡ r.node.device_type)
      × (count_named (core_name t) r'.tasks ≡ count_named (core_name t) r.tasks)

  pub start_shared-node :
      (service_id name : String) (rpc_port http_port : ℕ) (field : Scheduler R → ServiceState)
      (put : ServiceState → Scheduler R → Scheduler R) (r r' : Round R)
      → start_shared flags ops persisted service_id name rpc_port http_port field put offer r
        ≡ some r'
      → r'.node ≡ r.node
  unfolding start_shared
  start_shared-node service_id name rpc_port http_port field put r r' e =
      elim (Bool-cases (
        ops.contains r.remaining (resources_for flags ops service_id r.scheduler)
        && do_start_service service_id r.node (field r.scheduler).state
        && role_allows flags ops persisted r.remaining)) [
          | inr kept ↦ ground arith
          | inl wanted ↦
              elim (Option-cases (
                make_task flags ops persisted r.scheduler service_id name
                  (id_on name offer.hostname) offer.hostname rpc_port http_port offer.slave_id)) [
                    | inl aborted ↦ absurd (ground arith)
                    | inr (task, made) ↦ ground arith
                  ]
        ]

  start_shared-KeepsDevices :
      (t : DeviceType) (service_id name : String) (rpc_port http_port : ℕ)
      (field : Scheduler R → ServiceState) (put : ServiceState → Scheduler R → Scheduler R)
      (r r' : Round R)
      → (name == core_name t) ≡ false
      → start_shared flags ops persisted service_id name rpc_port http_port field put offer r
        ≡ some r'
      → KeepsDevices t r r'
  start_shared-KeepsDevices t service_id name rpc_port http_port field put r r' other e = (
    ap (λ n. n.device_type) (start_shared-node service_id name _ _ field put r r' e),
    elim (start_shared-result flags ops persisted service_id name _ _ field put offer r r' e) [
      | inl same ↦ rw same refl
      | inr (task, named, more, _, _) ↦
          rw more (count_named_other (core_name t) task r.tasks (rw named other))
    ],
  )

  start_api-KeepsDevices :
      (t : DeviceType) (r r' : Round R)
      → is_core t ≡ true
      → start_api flags ops persisted offer r ≡ some r'
      → KeepsDevices t r r'
  unfolding start_api
  start_api-KeepsDevices t r r' h e =
      start_shared-KeepsDevices t _ _ _ _ _ _ r r' (core_name_other t h).0 e

  start_s3-KeepsDevices :
      (t : DeviceType) (r r' : Round R)
      → is_core t ≡ true
      → start_s3 flags ops persisted offer r ≡ some r'
      → KeepsDevices t r r'
  unfolding start_s3
  start_s3-KeepsDevices t r r' h e = elim (Bool-cases (is_empty flags.s3_hostname)) [
    | inl off ↦ let same : r ≡ r' = ground arith in rw (← same) (refl, refl)
    | inr on ↦
        start_shared-KeepsDevices t _ _ _ _ _ _ r r' (core_name_other t h).1
          (rw (on, start_s3) at e)
  ]

  start_console-KeepsDevices :
      (t : DeviceType) (r r' : Round R)
      → is_core t ≡ true
      → start_console flags ops persisted offer r ≡ some r'
      → KeepsDevices t r r'
  unfolding start_console
  start_console-KeepsDevices t r r' h e =
      start_shared-KeepsDevices t _ _ _ _ _ _ r r' (core_name_other t h).2 e

  start_client-KeepsDevices :
      (t : DeviceType) (r : Round R)
      → is_core t ≡ true
      → KeepsDevices t r (start_client flags ops persisted offer r)
  unfolding start_client
  start_client-KeepsDevices t r h =
      let needed = resources_for flags ops client_task r.scheduler in
      elim (Bool-cases (
        ops.contains r.remaining needed
        && do_start_service client_task r.node r.node.client.state
        && r.node.client_mount_point)) [
          | inr kept ↦ rw (kept, start_client) (refl, refl)
          | inl wanted ↦
              rw (wanted, start_client)
                (refl, count_named_other (core_name t) _ r.tasks (core_name_other t h).3)
        ]

  start_services-count :
      (t : DeviceType) (r r' : Round R)
      → is_core t ≡ true
      → start_services flags ops persisted offer r ≡ some r'
      → count_named (core_name t) r'.tasks
        ≤ count_named (core_name t) r.tasks + count_type t r.node.device_type
  unfolding start_services
  start_services-count t r r' h e =
      let (r₁, e₁, k₁) = >>=-eq-some (start_api flags ops persisted offer r) _ e in
      let (r₂, e₂, k₂) = >>=-eq-some (start_s3 flags ops persisted offer r₁) _ k₁ in
      let (r₃, e₃, k₃) = >>=-eq-some (start_console flags ops persisted offer r₂) _ k₂ in
      let r₄ = start_client flags ops persisted offer r₃ in
      let (d₁, c₁) = start_api-KeepsDevices t r r₁ h e₁ in
      let (d₂, c₂) = start_s3-KeepsDevices t r₁ r₂ h e₂ in
      let (d₃, c₃) = start_console-KeepsDevices t r₂ r₃ h e₃ in
      let (d₄, c₄) = start_client-KeepsDevices t r₃ h in
      let devices : r₄.node.device_type ≡ r.node.device_type = d₄ ∙ d₃ ∙ d₂ ∙ d₁ in
      let counted : count_named (core_name t) r₄.tasks ≡ count_named (core_name t) r.tasks =
        c₄ ∙ c₃ ∙ c₂ ∙ c₁ in
      rw (← devices, ← counted)
        (start_devices-count flags ops persisted offer t r₄.node.device_type r₄ r' h k₃)

  -- No more tasks of a core service than the host lists devices for it.
  abbrev pub WithinDevices : DeviceType → NodeState → Round R → Type 0
  WithinDevices t node r = count_named (core_name t) r.tasks ≤ count_type t node.device_type

  -- For one offer, where the scheduler does not abort, the registry, the metadata and the data
  -- service are each launched at most as often as the host lists a device for it: not at all on a
  -- host that has none.
  pub start_services-WithinDevices :
      (t : DeviceType) (node : NodeState) (s : Scheduler R)
      → is_core t ≡ true
      → Ensures
          (WithinDevices t node)
          (start_services flags ops persisted offer (new_round offer node s))
  start_services-WithinDevices t node s h =
      elim (Option-cases (start_services flags ops persisted offer (new_round offer node s))) [
        | inl aborted ↦ rw aborted tt
        | inr (r, started) ↦
            let counted = start_services-count t (new_round offer node s) r h started in
            rw started (omega (arith, counted))
      ]
