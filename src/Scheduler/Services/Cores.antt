-- ===== src/Scheduler/Services/Cores.antt =====
-- scheduler/scheduler.cpp: the `switch` over the devices of a host.
use mesos_framework.Base.{
  ℕ, ◌+◌, ◌≤◌, String, ◌≡◌, refl, inl, inr, Bool, true, false, List, [], ◌∷◌, some, arith, ◌==◌,
  >>=-eq-some, if◌then◌else◌,
}
use mesos_framework.Flags.{Flags}
use mesos_framework.Proto.{DeviceType, same_type, SchedulerState}
use mesos_framework.Mesos.{Offer, ResourceOps}
use mesos_framework.Scheduler.State.{Service}
use mesos_framework.Scheduler.Services.{Round, start_core, start_device, start_devices}
use mesos_framework.Scheduler.Services.Counts.{count_named, count_named-append}
use mesos_framework.Scheduler.Services.Shared.{start_core-result}

-- How many of the devices are of a kind.
abbrev pub count_type : DeviceType → List DeviceType → ℕ
count_type t [] = 0
count_type t (d ∷ ds) = (if same_type t d then 1 else 0) + count_type t ds

-- The name of the task that the `switch` launches for a device, if any.
abbrev pub core_name : DeviceType → String
core_name DeviceType.registry = "quobyte-registry"
core_name DeviceType.metadata = "quobyte-metadata"
core_name DeviceType.data_device = "quobyte-data"
core_name _ = ""

abbrev pub is_core : DeviceType → Bool
is_core DeviceType.registry = true
is_core DeviceType.metadata = true
is_core DeviceType.data_device = true
is_core _ = false

core_name_same :
    (t : DeviceType)
    → is_core t ≡ true
    → (("quobyte-registry" == core_name t) ≡ same_type t DeviceType.registry)
      × (("quobyte-metadata" == core_name t) ≡ same_type t DeviceType.metadata)
      × (("quobyte-data" == core_name t) ≡ same_type t DeviceType.data_device)
core_name_same DeviceType.registry h = (refl, refl, refl)
core_name_same DeviceType.metadata h = (refl, refl, refl)
core_name_same DeviceType.data_device h = (refl, refl, refl)
core_name_same _ h = cc

pub core_name_other :
    (t : DeviceType)
    → is_core t ≡ true
    → (("quobyte-api" == core_name t) ≡ false)
      × (("quobyte-s3" == core_name t) ≡ false)
      × (("quobyte-webconsole" == core_name t) ≡ false)
      × (("quobyte-client" == core_name t) ≡ false)
core_name_other DeviceType.registry h = (refl, refl, refl, refl)
core_name_other DeviceType.metadata h = (refl, refl, refl, refl)
core_name_other DeviceType.data_device h = (refl, refl, refl, refl)
core_name_other _ h = cc

module _ {ℓ} {R : Type ℓ} (flags : Flags) (ops : ResourceOps R) (persisted : SchedulerState)
    (offer : Offer R) where
  core-count :
      (name own : String) (service_id : String) (rpc_port http_port : ℕ) (core : Service)
      (message : String) (r r' : Round R)
      → start_core flags ops persisted service_id own rpc_port http_port core message offer r
        ≡ some r'
      → count_named name r'.tasks ≤ count_named name r.tasks + (if own == name then 1 else 0)
  core-count name own service_id rpc_port http_port core message r r' e =
      elim (start_core-result flags ops persisted service_id own rpc_port http_port core message
        offer r r' e) [
          | inl (same, _) ↦ rw same (omega arith)
          | inr (task, named, more, _) ↦
              rw (more, count_named-append name r.tasks (task ∷ []), named) (omega arith)
        ]

  start_device-count :
      (t d : DeviceType) (r r' : Round R)
      → is_core t ≡ true
      → start_device flags ops persisted d offer r ≡ some r'
      → count_named (core_name t) r'.tasks
        ≤ count_named (core_name t) r.tasks + (if same_type t d then 1 else 0)
  unfolding start_device
  start_device-count t DeviceType.registry r r' h e =
      rw (← (core_name_same t h).0) (core-count (core_name t) _ _ _ _ _ _ r r' e)
  start_device-count t DeviceType.metadata r r' h e =
      rw (← (core_name_same t h).1) (core-count (core_name t) _ _ _ _ _ _ r r' e)
  start_device-count t DeviceType.data_device r r' h e =
      rw (← (core_name_same t h).2) (core-count (core_name t) _ _ _ _ _ _ r r' e)
  start_device-count t DeviceType.bootstrap r r' h e = ground arith
  start_device-count t DeviceType.client r r' h e = ground arith

  pub start_devices-count :
      (t : DeviceType) (ds : List DeviceType) (r r' : Round R)
      → is_core t ≡ true
      → start_devices flags ops persisted ds offer r ≡ some r'
      → count_named (core_name t) r'.tasks ≤ count_named (core_name t) r.tasks + count_type t ds
  unfolding start_devices
  start_devices-count t [] r r' h e = ground arith
  start_devices-count t (d ∷ ds) r r' h e =
      let (r₁, first, rest) = >>=-eq-some (start_device flags ops persisted d offer r) _ e in
      let here = start_device-count t d r r₁ h first in
      let there = start_devices-count t ds r₁ r' h rest in omega (arith, here, there)
