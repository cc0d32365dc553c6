-- ===== src/Tests/Offers.antt =====
-- Tests of the scheduler's answers to offers.
use mathlib.Core.List.{Memᴰ}
use mesos_framework.Base.{
  arith, ℕ, List, ◌++◌, ◌≡◌, refl, ◌≢◌, ◌↔◌, ◌⊎◌, length, All, true, [], ◌∷◌, none, some, Ensures,
}
use mesos_framework.Base.Int.{pos, stoi}
use mesos_framework.Proto.{DeviceType, NodeState, not_running}
use mesos_framework.Mesos.{Call, decline_offer}
use mesos_framework.Scheduler.Memory.{mem_value_text, mem_mb_from_resource_string}
use mesos_framework.Scheduler.State.{api}
use mesos_framework.Scheduler.Services.{start_services}
use mesos_framework.Scheduler.Services.Devices.{WithinDevices, start_services-WithinDevices}
use mesos_framework.Scheduler.Offers.{resource_offers, handle_offer, offer_to_services, new_round}
use mesos_framework.Base.Dict
use mesos_framework.Scheduler.Offers.Crowded.{LaunchesCore, handle_offer-LaunchesCore}
use mesos_framework.Scheduler.State.{Scheduler}
use mesos_framework.Scheduler.Offers.Answers.{AnswersTo, resource_offers-answers}
use mesos_framework.Scheduler.Offers.Naming.{IsNamedIn, resource_offers-IsNamedIn}
use mesos_framework.Scheduler.Offers.Readiness.{IsReady, resource_offers-total}
use mesos_framework.Scheduler.Offers.Singletons.{Launches, resource_offers-Launches}
use mesos_framework.Scheduler.Offers.Shutdown.{
  offer_to_services-KillsRunning, LaunchesNone, resource_offers-LaunchesNone,
}
use mesos_framework.Scheduler.Names.{api_task}
use mesos_framework.Scheduler.Policy.{do_start_service}
use mesos_framework.Scheduler.Policy.Starting.{IsCore, running_count, do_start_service_iff}
use mesos_framework.Scheduler.State.{registry}
use mesos_framework.Scheduler.Services.Budget.{IsAmount, WithinOffer, start_services-WithinOffer}
use mesos_framework.Scheduler.Services.Killing.{KillsRunning}
use mesos_framework.Tests.{
  flags, units, deployed, shut_down, encode, up, down, node_a, scheduler, offer, two_offers,
}

mem_of_default : mem_mb_from_resource_string "cpus:1.0;mem:2084;disk:32" ≡ some (pos 2084)
unfolding mem_mb_from_resource_string
mem_of_default = refl

-- An entry at the end of the text loses its last digit.
mem_at_end : mem_mb_from_resource_string "cpus:1.0;mem:2084" ≡ some (pos 208)
unfolding mem_mb_from_resource_string
mem_at_end = refl

pub default_flags-IsReady : IsReady flags
unfolding stoi mem_value_text
default_flags-IsReady = record {
  registry_named = λ e. cc;
  image_named = λ e. cc;
  registry_fits = λ e. cc;
  metadata_fits = λ e. cc;
  data_fits = λ e. cc;
  api_fits = λ e. cc;
  s3_fits = λ e. cc;
  webconsole_fits = λ e. cc;
}

resource_offers-answers_example :
    Ensures
      (AnswersTo flags units deployed encode ("o1" ∷ "o2" ∷ []))
      (resource_offers flags units deployed encode two_offers (scheduler (up "quobyte-registry-a")))
resource_offers-answers_example =
    resource_offers-answers flags units deployed encode two_offers
      (scheduler (up "quobyte-registry-a"))

resource_offers-total_example :
    resource_offers flags units deployed encode two_offers (scheduler (up "quobyte-registry-a"))
    ≢ none
resource_offers-total_example =
    resource_offers-total flags default_flags-IsReady units deployed encode two_offers
      (scheduler (up "quobyte-registry-a"))

resource_offers-Launches_example :
    Ensures
      (Launches api (scheduler (up "quobyte-registry-a")))
      (resource_offers flags units deployed encode two_offers (scheduler (up "quobyte-registry-a")))
resource_offers-Launches_example =
    resource_offers-Launches flags units deployed encode api refl two_offers
      (scheduler (up "quobyte-registry-a"))

resource_offers-LaunchesNone_example :
    Ensures
      (LaunchesNone flags units shut_down encode refl "quobyte-registry" refl)
      (resource_offers flags units shut_down encode two_offers (scheduler down))
resource_offers-LaunchesNone_example =
    resource_offers-LaunchesNone flags units shut_down encode refl "quobyte-registry" refl
      two_offers (scheduler down)

start_services-WithinDevices_example :
    Ensures
      (WithinDevices flags units deployed (offer "o1" "a") DeviceType.registry (node_a down))
      (start_services flags units deployed
        (offer "o1" "a")
        (new_round (offer "o1" "a") (node_a down) (scheduler down)))
start_services-WithinDevices_example =
    start_services-WithinDevices flags units deployed (offer "o1" "a") DeviceType.registry
      (node_a down) (scheduler down) refl

-- A host whose prober lists four devices.
abbrev crowded : NodeState
crowded = record (node_a down) {
  device_type =
      DeviceType.registry ∷ DeviceType.metadata ∷ DeviceType.data_device ∷ DeviceType.client ∷ [];
}

do_start_service_iff_example : (do_start_service api_task (node_a (up "r")) not_running ≡ true) ↔ (
    ((node_a (up "r")).device_types_valid ≡ true)
    × (not_running ≡ not_running)
    × (IsCore api_task
        ⊎ (running_count (
              (node_a (up "r")).registry
              ∷ (node_a (up "r")).metadata
              ∷ (node_a (up "r")).data_service
              ∷ [])
            ≡ length (node_a (up "r")).device_type)))
do_start_service_iff_example = do_start_service_iff api_task (node_a (up "r")) not_running

abbrev crowded_host_a : Scheduler ℕ
crowded_host_a = record (scheduler down) { nodes = ("a", crowded) ∷ [] }

handle_offer-LaunchesCore_example :
    Ensures
      (λ r. All LaunchesCore r.1)
      (handle_offer flags units deployed encode 1010 (offer "o1" "a") crowded_host_a)
unfolding Dict.find
handle_offer-LaunchesCore_example =
    handle_offer-LaunchesCore flags units deployed encode 1010 (offer "o1" "a") crowded_host_a
      crowded refl (omega arith)

offer_to_services-KillsRunning_example :
    (kills : List (Call ℕ)) × (offer_to_services flags units shut_down
        (offer "o1" "a")
        (node_a (up "quobyte-registry-a"))
        (scheduler down)
      ≡ some (scheduler down, kills ++ decline_offer "o1" ∷ []))
    × ((c : Call ℕ)
        → Memᴰ c kills
          ↔ KillsRunning (offer "o1" "a") (node_a (up "quobyte-registry-a")) (scheduler down) c)
offer_to_services-KillsRunning_example =
    offer_to_services-KillsRunning flags units shut_down (offer "o1" "a")
      (node_a (up "quobyte-registry-a")) (scheduler down) refl

-- The units themselves are an amount.
units-IsAmount : IsAmount units (λ r. r)
units-IsAmount = record { amount-minus = λ a b h. ground arith }

start_services-WithinOffer_example : Ensures (WithinOffer (λ r. r) (offer "o1" "a")) (
    start_services flags units deployed
      (offer "o1" "a")
      (new_round (offer "o1" "a") (node_a down) (scheduler down)))
start_services-WithinOffer_example =
    start_services-WithinOffer (λ r. r) flags units units-IsAmount deployed (offer "o1" "a")
      (node_a down) (scheduler down)

resource_offers-IsNamedIn_example :
    Ensures
      (λ r. All (IsNamedIn two_offers) r.1)
      (resource_offers flags units deployed encode two_offers (scheduler (up "quobyte-registry-a")))
resource_offers-IsNamedIn_example =
    resource_offers-IsNamedIn flags units deployed encode two_offers
      (scheduler (up "quobyte-registry-a"))
