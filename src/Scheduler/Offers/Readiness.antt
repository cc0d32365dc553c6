-- ===== src/Scheduler/Offers/Readiness.antt =====
-- scheduler/scheduler.cpp: the flags on which it depends whether `resourceOffers` ends the process.
use Prim.Native.String.{len}
use text.Mathlib.Text.{find?}
use mesos_framework.Base.{
  ℕ, String, ◌≢◌, refl, Bool, List, [], ◌∷◌, Option, none, some, arith, ◌==◌, eq_iff, Bool-cases,
  inl, inr, ◌>>=◌, Option-cases,
}
use mesos_framework.Base.Text.{is_empty, substr}
use mesos_framework.Flags.{Flags}
use mesos_framework.Proto.{DeviceType, NodeState, ServiceState, SchedulerState, ProbeRequest}
use mesos_framework.Mesos.{Offer, ResourceOps}
use mesos_framework.Scheduler.Memory.{mem_value_text, or_minus_one, mem_mb_from_resource_string}
use mesos_framework.Base.Int.{Parsed, value, invalid_argument, out_of_range, stoi}
use mesos_framework.Scheduler.Command.{mem_export, construct_docker_execute_command}
use mesos_framework.Scheduler.Names.{id_on}
use mesos_framework.Scheduler.Task.{create_prober_task_info, make_task}
use mesos_framework.Scheduler.State.{Scheduler, Service}
use mesos_framework.Scheduler.Services.{
  Round, start_shared, start_api, start_s3, start_console, start_core, start_device, start_devices,
  start_services,
}
use mesos_framework.Scheduler.Offers.{
  launch_prober, offer_to_services, handle_offer, resource_offers, new_round,
}
use mesos_framework.Scheduler.Offers.Cases.{
  known_offer_cases, handle_offer_cases, offer_to_services_cases,
}

-- The memory size of a resource string is no number that is too large for an `int`, for which
-- `std::stoi` throws. It need not be a number, and there need not be one.
abbrev pub FitsInt : String → Type 0
FitsInt text = elim (find? text "mem") [
  | none ↦ Unit
  | some i ↦ stoi (mem_value_text (substr text i (len text))) ≢ out_of_range
]

-- The names that the code insists on are set, and the memory sizes fit.
pub record IsReady (flags : Flags) : Type 0 where
  pub registry_named : flags.registry_dns_name ≢ ""
  pub image_named : flags.framework_image ≢ ""
  pub registry_fits : FitsInt flags.registry_resources
  pub metadata_fits : FitsInt flags.metadata_resources
  pub data_fits : FitsInt flags.data_resources
  pub api_fits : FitsInt flags.api_resources
  pub s3_fits : FitsInt flags.s3_resources
  pub webconsole_fits : FitsInt flags.webconsole_resources

read_or_minus_one : (parsed : Parsed) → parsed ≢ out_of_range → or_minus_one parsed ≢ none
read_or_minus_one (value v) h = λ e. cc
read_or_minus_one invalid_argument h = λ e. cc
read_or_minus_one out_of_range h = absurd (h refl)

mem_mb-total : (text : String) → FitsInt text → mem_mb_from_resource_string text ≢ none
unfolding mem_mb_from_resource_string
mem_mb-total text fits = elim (Option-cases (find? text "mem")) [
  | inl missing ↦ rw (mem_mb_from_resource_string, missing) (λ e. cc)
  | inr (i, found) ↦
      rw (mem_mb_from_resource_string, found) (read_or_minus_one _ (rw (FitsInt, found) at fits))
]

pub bind-total {ℓ κ} :
    {A : Type ℓ} {B : Type κ} (m : Option A) (f : A → Option B)
    → m ≢ none
    → ((a : A) → f a ≢ none)
    → (m >>= f) ≢ none
bind-total none f h k = absurd (h refl)
bind-total (some a) f h k = k a

mem_export-total :
    (wanted : Bool) (variable text : String) (extra : ℕ)
    → FitsInt text
    → mem_export wanted variable text extra ≢ none
unfolding mem_export
mem_export-total wanted variable text extra h = ground (arith, mem_mb-total text h)

command-total :
    (flags : Flags) (service host_name : String) (rpc_port http_port : ℕ)
    → IsReady flags
    → construct_docker_execute_command flags service host_name rpc_port http_port ≢ none
unfolding construct_docker_execute_command
command-total flags service host_name rpc_port http_port ready = ground (
  arith,
  eq_iff flags.registry_dns_name "",
  mem_export-total (service == "registry") "QUOBYTE_MAX_MEM_REGISTRY" flags.registry_resources
      flags.registry_extra_ram_mb ready.registry_fits,
  mem_export-total (service == "metadata") "QUOBYTE_MAX_MEM_METADATA" flags.metadata_resources
      flags.metadata_extra_ram_mb ready.metadata_fits,
  mem_export-total (service == "data") "QUOBYTE_MAX_MEM_DATA" flags.data_resources 0
      ready.data_fits,
  mem_export-total (service == "api") "QUOBYTE_MAX_MEM_API" flags.api_resources 0 ready.api_fits,
  mem_export-total (service == "s3") "QUOBYTE_MAX_MEM_S3" flags.s3_resources flags.s3_extra_ram_mb
      ready.s3_fits,
  mem_export-total (service == "webconsole") "QUOBYTE_MAX_MEM_WEBCONSOLE" flags.webconsole_resources
      0 ready.webconsole_fits,
)

module _ {ℓ} {R : Type ℓ} (flags : Flags) (ready : IsReady flags) (ops : ResourceOps R)
    (persisted : SchedulerState) where
  pub make_task-total :
      (s : Scheduler R) (service_id name task_id host_name : String) (rpc_port http_port : ℕ)
      (slave_id : String)
      → make_task flags ops persisted s service_id name task_id host_name rpc_port http_port
          slave_id
        ≢ none
  unfolding make_task
  make_task-total s service_id name task_id host_name rpc_port http_port slave_id =
      bind-total _ _ (command-total flags service_id host_name _ _ ready) (λ a. λ e. cc)

  start_shared-total :
      (service_id name : String) (rpc_port http_port : ℕ) (field : Scheduler R → ServiceState)
      (put : ServiceState → Scheduler R → Scheduler R) (offer : Offer R) (r : Round R)
      → start_shared flags ops persisted service_id name rpc_port http_port field put offer r ≢ none
  unfolding start_shared
  start_shared-total service_id name rpc_port http_port field put offer r = ground (
    arith,
    make_task-total r.scheduler service_id name (id_on name offer.hostname) offer.hostname rpc_port
        http_port offer.slave_id,
  )

  start_core-total :
      (service_id name : String) (rpc_port http_port : ℕ) (service : Service) (message : String)
      (offer : Offer R) (r : Round R)
      → start_core flags ops persisted service_id name rpc_port http_port service message offer r
        ≢ none
  unfolding start_core
  start_core-total service_id name rpc_port http_port service message offer r = ground (
    arith,
    make_task-total r.scheduler service_id name (id_on name offer.hostname) offer.hostname rpc_port
        http_port offer.slave_id,
  )

  start_s3-total : (offer : Offer R) (r : Round R) → start_s3 flags ops persisted offer r ≢ none
  unfolding start_s3
  start_s3-total offer r = elim (Bool-cases (is_empty flags.s3_hostname)) [
    | inl off ↦ rw off (λ e. cc)
    | inr on ↦ rw on (start_shared-total _ _ _ _ _ _ offer r)
  ]

  start_device-total :
      (d : DeviceType) (offer : Offer R) (r : Round R)
      → start_device flags ops persisted d offer r ≢ none
  unfolding start_device
  start_device-total DeviceType.registry offer r = start_core-total _ _ _ _ _ _ offer r
  start_device-total DeviceType.metadata offer r = start_core-total _ _ _ _ _ _ offer r
  start_device-total DeviceType.data_device offer r = start_core-total _ _ _ _ _ _ offer r
  start_device-total DeviceType.bootstrap offer r = λ e. cc
  start_device-total DeviceType.client offer r = λ e. cc

  start_devices-total :
      (ds : List DeviceType) (offer : Offer R) (r : Round R)
      → start_devices flags ops persisted ds offer r ≢ none
  unfolding start_devices
  start_devices-total [] offer r = λ e. cc
  start_devices-total (d ∷ ds) offer r =
      bind-total _ _ (start_device-total d offer r) (λ r'. start_devices-total ds offer r')

  start_services-total :
      (offer : Offer R) (r : Round R) → start_services flags ops persisted offer r ≢ none
  unfolding start_services start_api start_console
  start_services-total offer r = bind-total _ _ (start_shared-total _ _ _ _ _ _ offer r) λ r₁.
      bind-total _ _ (start_s3-total offer r₁) λ r₂.
        bind-total _ _ (start_shared-total _ _ _ _ _ _ offer r₂) λ r₃. start_devices-total _ offer _

  launch_prober-total :
      (encode_request : ProbeRequest → String) (now : ℕ) (offer : Offer R) (node : NodeState)
      (s : Scheduler R)
      → launch_prober flags ops persisted encode_request now offer node s ≢ none
  unfolding launch_prober create_prober_task_info
  launch_prober-total encode_request now offer node s =
      ground (arith, eq_iff flags.framework_image "", ready.image_named)

  offer_to_services-total :
      (offer : Offer R) (node : NodeState) (s : Scheduler R)
      → offer_to_services flags ops persisted offer node s ≢ none
  offer_to_services-total offer node s =
      offer_to_services_cases flags ops persisted (λ _. "") 0 (λ o. o ≢ none) offer node s
        (λ _. bind-total _ _ (start_services-total offer (new_round offer node s)) (λ r e. cc))
        (λ _ e. cc)

  handle_offer-total :
      (encode_request : ProbeRequest → String) (now : ℕ) (offer : Offer R) (s : Scheduler R)
      → handle_offer flags ops persisted encode_request now offer s ≢ none
  handle_offer-total encode_request now offer s =
      handle_offer_cases flags ops persisted encode_request now (λ o. o ≢ none) offer s (λ e. cc)
        (λ _ e. cc)
        λ node _.
          known_offer_cases flags ops persisted encode_request now (λ o. o ≢ none) offer _ _
            (λ _. launch_prober-total encode_request now offer _ _) (λ e. cc)
            (offer_to_services-total offer _ _)

  -- With flags that name a registry and an image for the prober, and whose memory sizes are none too
  -- large for an `int`, the scheduler never aborts on an offer, in any state and with any resources.
  pub resource_offers-total :
      (encode_request : ProbeRequest → String) (offers : List (ℕ × Offer R)) (s : Scheduler R)
      → resource_offers flags ops persisted encode_request offers s ≢ none
  unfolding resource_offers
  resource_offers-total encode_request [] s = λ e. cc
  resource_offers-total encode_request ((now, offer) ∷ offers) s =
      bind-total _ _ (handle_offer-total encode_request now offer s)
        λ r. bind-total _ _ (resource_offers-total encode_request offers r.0) λ r' e. cc
