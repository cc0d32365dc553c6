-- ===== src/Scheduler/Offers/Shutdown.antt =====
-- scheduler/scheduler.cpp: `resourceOffers` where there is no version to deploy.
use mathlib.Core.List.{Memᴰ}
use mesos_framework.Base.{
  ◌↔◌, ℕ, String, ◌≡◌, refl, ◌∙◌, true, false, List, [], ◌∷◌, ◌++◌, some, ◌==◌, eq_iff,
  Option-cases, inl, inr, Ensures, Ensures->>=,
}
use mesos_framework.Base.Text.{is_empty}
use mesos_framework.Flags.{Flags}
use mesos_framework.Proto.{NodeState, SchedulerState, ProbeRequest}
use mesos_framework.Mesos.{Offer, Call, decline_offer, ResourceOps}
use mesos_framework.Scheduler.State.{Scheduler}
use mesos_framework.Scheduler.Task.{create_prober_task_info}
use mesos_framework.Scheduler.Services.{kill_services}
use mesos_framework.Scheduler.Services.Killing.{KillsRunning, kill_services_iff}
use mesos_framework.Scheduler.Offers.{
  reconcile_host, launch_prober, trigger_discovery, offer_to_services, handle_offer,
  resource_offers,
}
use mesos_framework.Scheduler.Offers.Cases.{
  known_offer_cases, handle_offer_cases, offer_to_services_cases,
}
use mesos_framework.Scheduler.Offers.Singletons.{launches, launches-append, launches-kill_services}

module _ {ℓ} {R : Type ℓ} (flags : Flags) (ops : ResourceOps R) (persisted : SchedulerState)
    (encode_request : ProbeRequest → String) (down : persisted.target_version ≡ "") (name : String)
    (other : ("quobyte-device-prober" == name) ≡ false) where
  abbrev pub LaunchesNone : Scheduler R × List (Call R) → Type 0
  LaunchesNone r = launches name r.1 ≡ 0

  launch_prober-LaunchesNone :
      (now : ℕ) (offer : Offer R) (node : NodeState) (s : Scheduler R)
      → Ensures LaunchesNone (launch_prober flags ops persisted encode_request now offer node s)
  unfolding launch_prober
  launch_prober-LaunchesNone now offer node s =
      elim (Option-cases (create_prober_task_info {R = R} flags persisted.framework_id_value)) [
        | inl aborted ↦ rw aborted tt
        | inr (info, made) ↦ rw (made, other) refl
      ]

  handle_offer-LaunchesNone :
      (now : ℕ) (offer : Offer R) (s : Scheduler R)
      → Ensures LaunchesNone (handle_offer flags ops persisted encode_request now offer s)
  unfolding reconcile_host trigger_discovery
  handle_offer-LaunchesNone now offer s =
      handle_offer_cases flags ops persisted encode_request now (Ensures LaunchesNone) offer s refl
        (λ _. refl)
        λ node _.
          known_offer_cases flags ops persisted encode_request now (Ensures LaunchesNone) offer _ _
            (λ _. launch_prober-LaunchesNone now offer _ _) refl
            (offer_to_services_cases flags ops persisted encode_request now (Ensures LaunchesNone)
              offer _ _
              (λ set.
                let empty : is_empty persisted.target_version ≡ true = (eq_iff _ "").1 down in
                absurd (cc (set, empty)))
              (λ _. launches-kill_services name offer _ _ _))

  -- Where there is no version to deploy, the offers of a call that does not abort are used to
  -- launch no task but the prober.
  pub resource_offers-LaunchesNone :
      (offers : List (ℕ × Offer R)) (s : Scheduler R)
      → Ensures LaunchesNone (resource_offers flags ops persisted encode_request offers s)
  unfolding resource_offers
  resource_offers-LaunchesNone [] s = refl
  resource_offers-LaunchesNone ((now, offer) ∷ offers) s =
      Ensures->>= LaunchesNone LaunchesNone
        (handle_offer flags ops persisted encode_request now offer s) _
        (handle_offer-LaunchesNone now offer s)
        λ r first.
          Ensures->>= LaunchesNone LaunchesNone
            (resource_offers flags ops persisted encode_request offers r.0) _
            (resource_offers-LaunchesNone offers r.0)
            λ r' rest. launches-append name r.1 r'.1 ∙ rw (first, rest) refl

-- Where no version is to be deployed, an offer that goes on to the services leaves the state as it
-- is; it is declined, and the calls before that are exactly these: for each registry, data, metadata,
-- API, S3 and console service on record as running, the kill of the task whose id is made of the
-- service's name and the host of the offer.
pub offer_to_services-KillsRunning {ℓ} :
    {R : Type ℓ} (flags : Flags) (ops : ResourceOps R) (persisted : SchedulerState)
    (offer : Offer R) (node : NodeState) (s : Scheduler R)
    → persisted.target_version ≡ ""
    → (kills : List (Call R)) × (offer_to_services flags ops persisted offer node s
        ≡ some (s, kills ++ decline_offer offer.id ∷ []))
      × ((c : Call R) → Memᴰ c kills ↔ KillsRunning offer node s c)
unfolding offer_to_services
offer_to_services-KillsRunning flags ops persisted offer node s down =
    (kill_services offer node s, rw down refl, kill_services_iff offer node s)
