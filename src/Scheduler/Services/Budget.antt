-- ===== src/Scheduler/Services/Budget.antt =====
-- scheduler/scheduler.cpp: what the tasks that are launched on an offer take of it.
use mesos_framework.Base.{
  ℕ, ◌+◌, ◌≤◌, String, ◌≡◌, inl, inr, true, ◌&&◌, List, [], ◌∷◌, ◌++◌, none, some, arith,
  Option-cases, Bool-cases, Ensures, >>=-eq-some,
}
use mesos_framework.Base.Text.{is_empty}
use mesos_framework.Flags.{Flags}
use mesos_framework.Proto.{DeviceType, NodeState, ServiceState, SchedulerState}
use mesos_framework.Mesos.{Offer, TaskInfo, ResourceOps}
use mesos_framework.Scheduler.Names.{id_on, client_task}
use mesos_framework.Scheduler.Policy.{do_start_service}
use mesos_framework.Scheduler.Task.{make_task, create_client_task_info}
use mesos_framework.Scheduler.State.{Scheduler, Service, resources_for, node_field}
use mesos_framework.Scheduler.Services.{
  Round, start_shared, start_api, start_s3, start_console, start_client, start_core, start_device,
  start_devices, start_services, role_allows,
}
use mesos_framework.Scheduler.Offers.{new_round}

-- The amount of one scalar resource, such as memory. What contains other resources has at least as
-- much of it, and a subtraction takes away what is subtracted.
pub record IsAmount {ℓ} {R : Type ℓ} (ops : ResourceOps R) (amount : R → ℕ) : Type ℓ where
  pub amount-minus :
      (a b : R) → ops.contains a b ≡ true → amount (ops.minus a b) + amount b ≡ amount a

module _ {ℓ} {R : Type ℓ} (amount : R → ℕ) where
  -- What a task takes of a resource.
  abbrev pub used_by : TaskInfo R → ℕ
  used_by task = elim task.resources [ none ↦ 0 | some r ↦ amount r ]

  abbrev pub used : List (TaskInfo R) → ℕ
  used [] = 0
  used (t ∷ ts) = used_by t + used ts

  used-append : (ts us : List (TaskInfo R)) → used (ts ++ us) ≡ used ts + used us
  used-append [] us = omega arith
  used-append (t ∷ ts) us = omega (arith, used-append ts us)

  -- What the tasks take and what is left is together no more than before.
  abbrev Spends : Round R → Round R → Type 0
  Spends r r' = used r'.tasks + amount r'.remaining ≤ used r.tasks + amount r.remaining

  -- The tasks on an offer take no more than the offer has.
  abbrev pub WithinOffer : Offer R → Round R → Type 0
  WithinOffer offer r = used r.tasks ≤ amount offer.resources

  Spends-trans : (r r' r'' : Round R) → Spends r r' → Spends r' r'' → Spends r r''
  Spends-trans r r' r'' h k = omega (arith, h, k)

  module _ (flags : Flags) (ops : ResourceOps R) (counted : IsAmount ops amount)
      (persisted : SchedulerState) (offer : Offer R) where
    make_task-used_by :
        (s : Scheduler R) (service_id name task_id host_name : String) (rpc_port http_port : ℕ)
        (slave_id : String) (task : TaskInfo R)
        → make_task flags ops persisted s service_id name task_id host_name rpc_port http_port
            slave_id
          ≡ some task
        → used_by task ≡ amount (resources_for flags ops service_id s)
    unfolding make_task
    make_task-used_by s service_id name task_id host_name rpc_port http_port slave_id task e =
        ground arith

    -- A task is added that takes no more than what is subtracted.
    used-added :
        (needed : R) (task : TaskInfo R) (r : Round R)
        → ops.contains r.remaining needed ≡ true
        → used_by task ≤ amount needed
        → used (r.tasks ++ task ∷ []) + amount (ops.minus r.remaining needed)
          ≤ used r.tasks + amount r.remaining
    used-added needed task r fits takes = omega (
      arith,
      counted.amount-minus r.remaining needed fits,
      used-append r.tasks (task ∷ []),
      takes,
    )

    add-Spends :
        (needed : R) (task : TaskInfo R) (r r' : Round R)
        → ops.contains r.remaining needed ≡ true
        → used_by task ≤ amount needed
        → r'.tasks ≡ r.tasks ++ task ∷ []
        → r'.remaining ≡ ops.minus r.remaining needed
        → Spends r r'
    add-Spends needed task r r' fits takes more left =
        rw (more, left) (used-added needed task r fits takes)

    start_shared-Spends :
        (service_id name : String) (rpc_port http_port : ℕ) (field : Scheduler R → ServiceState)
        (put : ServiceState → Scheduler R → Scheduler R) (r r' : Round R)
        → start_shared flags ops persisted service_id name rpc_port http_port field put offer r
          ≡ some r'
        → Spends r r'
    unfolding start_shared
    start_shared-Spends service_id name rpc_port http_port field put r r' e =
        let needed = resources_for flags ops service_id r.scheduler in
        elim (Bool-cases (
          ops.contains r.remaining needed
          && do_start_service service_id r.node (field r.scheduler).state
          && role_allows flags ops persisted r.remaining)) [
            | inr kept ↦ let same : r ≡ r' = ground arith in rw (← same) (omega arith)
            | inl wanted ↦
                elim (Option-cases (
                  make_task flags ops persisted r.scheduler service_id name
                    (id_on name offer.hostname) offer.hostname rpc_port http_port offer.slave_id)) [
                      | inl aborted ↦ absurd (ground arith)
                      | inr (task, made) ↦
                          let takes =
                            make_task-used_by r.scheduler service_id name _ _ _ _ _ task made in
                          add-Spends needed task r r' (ground arith) (omega (arith, takes))
                            (ground arith) (ground arith)
                    ]
          ]

    start_core-Spends :
        (service_id name : String) (rpc_port http_port : ℕ) (core : Service) (message : String)
        (r r' : Round R)
        → start_core flags ops persisted service_id name rpc_port http_port core message offer r
          ≡ some r'
        → Spends r r'
    unfolding start_core
    start_core-Spends service_id name rpc_port http_port core message r r' e =
        let needed = resources_for flags ops service_id r.scheduler in
        elim (Bool-cases (
          do_start_service service_id r.node (node_field core r.node).state
          && ops.contains r.remaining needed)) [
            | inr kept ↦
                let same : (r'.tasks ≡ r.tasks) × (r'.remaining ≡ r.remaining) =
                  (ground arith, ground arith) in
                rw (same.0, same.1) (omega arith)
            | inl wanted ↦
                elim (Option-cases (
                  make_task flags ops persisted r.scheduler service_id name
                    (id_on name offer.hostname) offer.hostname rpc_port http_port offer.slave_id)) [
                      | inl aborted ↦ absurd (ground arith)
                      | inr (task, made) ↦
                          let takes =
                            make_task-used_by r.scheduler service_id name _ _ _ _ _ task made in
                          add-Spends needed task r r' (ground arith) (omega (arith, takes))
                            (ground arith) (ground arith)
                    ]
          ]

    start_client-Spends : (r : Round R) → Spends r (start_client flags ops persisted offer r)
    unfolding start_client create_client_task_info
    start_client-Spends r =
        let needed = resources_for flags ops client_task r.scheduler in
        elim (Bool-cases (
          ops.contains r.remaining needed
          && do_start_service client_task r.node r.node.client.state
          && r.node.client_mount_point)) [
            | inr kept ↦ rw (kept, start_client) (omega arith)
            | inl wanted ↦
                let fits : ops.contains r.remaining needed ≡ true = ground arith in
                rw (wanted, start_client) (used-added needed _ r fits (omega arith))
          ]

    start_device-Spends :
        (d : DeviceType) (r r' : Round R)
        → start_device flags ops persisted d offer r ≡ some r'
        → Spends r r'
    unfolding start_device
    start_device-Spends DeviceType.registry r r' e = start_core-Spends _ _ _ _ _ _ r r' e
    start_device-Spends DeviceType.metadata r r' e = start_core-Spends _ _ _ _ _ _ r r' e
    start_device-Spends DeviceType.data_device r r' e = start_core-Spends _ _ _ _ _ _ r r' e
    start_device-Spends DeviceType.bootstrap r r' e =
        let same : r ≡ r' = ground arith in rw (← same) (omega arith)
    start_device-Spends DeviceType.client r r' e =
        let same : r ≡ r' = ground arith in rw (← same) (omega arith)

    start_devices-Spends :
        (ds : List DeviceType) (r r' : Round R)
        → start_devices flags ops persisted ds offer r ≡ some r'
        → Spends r r'
    unfolding start_devices
    start_devices-Spends [] r r' e = let same : r ≡ r' = ground arith in rw (← same) (omega arith)
    start_devices-Spends (d ∷ ds) r r' e =
        let (r₁, first, rest) = >>=-eq-some (start_device flags ops persisted d offer r) _ e in
        Spends-trans r r₁ r' (start_device-Spends d r r₁ first) (start_devices-Spends ds r₁ r' rest)

    start_s3-Spends :
        (r r' : Round R) → start_s3 flags ops persisted offer r ≡ some r' → Spends r r'
    unfolding start_s3
    start_s3-Spends r r' e = elim (Bool-cases (is_empty flags.s3_hostname)) [
      | inl off ↦ let same : r ≡ r' = ground arith in rw (← same) (omega arith)
      | inr on ↦ start_shared-Spends _ _ _ _ _ _ r r' (rw (on, start_s3) at e)
    ]

    start_services-Spends :
        (r r' : Round R) → start_services flags ops persisted offer r ≡ some r' → Spends r r'
    unfolding start_services start_api start_console
    start_services-Spends r r' e =
        let (r₁, e₁, k₁) = >>=-eq-some (start_api flags ops persisted offer r) _ e in
        let (r₂, e₂, k₂) = >>=-eq-some (start_s3 flags ops persisted offer r₁) _ k₁ in
        let (r₃, e₃, k₃) = >>=-eq-some (start_console flags ops persisted offer r₂) _ k₂ in
        let r₄ = start_client flags ops persisted offer r₃ in
        Spends-trans r r₁ r' (start_shared-Spends _ _ _ _ _ _ r r₁ e₁) (
          Spends-trans r₁ r₂ r' (start_s3-Spends r₁ r₂ e₂) (
            Spends-trans r₂ r₃ r' (start_shared-Spends _ _ _ _ _ _ r₂ r₃ e₃) (
              Spends-trans r₃ r₄ r' (start_client-Spends r₃)
                (start_devices-Spends r₄.node.device_type r₄ r' k₃))))

    -- Where the scheduler does not abort, the services that it launches on an offer together take
    -- no more of any scalar resource than the offer has, whatever the resources of the single
    -- services are.
    pub start_services-WithinOffer :
        (node : NodeState) (s : Scheduler R)
        → Ensures
            (WithinOffer offer)
            (start_services flags ops persisted offer (new_round offer node s))
    start_services-WithinOffer node s =
        elim (Option-cases (start_services flags ops persisted offer (new_round offer node s))) [
          | inl aborted ↦ rw aborted tt
          | inr (r, started) ↦
              let spent = start_services-Spends (new_round offer node s) r started in
              rw started (omega (arith, spent))
        ]
