-- ===== src/Scheduler/Offers/Crowded.antt =====
-- scheduler/scheduler.cpp: the offers of a host that has more devices than there are kinds of core
-- services.
use mesos_framework.Base.{
  ℕ, String, ◌≡◌, refl, sym, subst, ◌⊎◌, inl, inr, ◌<◌, List, [], ◌∷◌, some, All, All-append,
  All-map, Option-cases, Ensures, is_empty, if◌then◌else◌, length, arith,
}
use mesos_framework.Base.Dict
use mesos_framework.Flags.{Flags}
use mesos_framework.Proto.{NodeState, SchedulerState, ProbeRequest}
use mesos_framework.Mesos.{Offer, TaskInfo, Call, decline_offer, launch_tasks, ResourceOps}
use mesos_framework.Scheduler.State.{Scheduler}
use mesos_framework.Scheduler.Task.{create_prober_task_info}
use mesos_framework.Scheduler.Services.{start_services, kill_services}
use mesos_framework.Scheduler.Services.Crowded.{IsCoreTask, start_services-IsCoreTask}
use mesos_framework.Scheduler.Services.Killing.{KillsRunning, kill_services-All}
use mesos_framework.Scheduler.Offers.{
  launch_prober, trigger_discovery, reconcile_host, offer_to_services, handle_offer, new_round,
}
use mesos_framework.Scheduler.Offers.Cases.{
  offered, known_offer_cases, handle_offer_cases, offer_to_services_cases,
}

module _ {ℓ} {R : Type ℓ} where
  -- A call that launches tasks launches only the prober and services that need a device.
  abbrev pub LaunchesCore : Call R → Type 0
  LaunchesCore (launch_tasks id tasks) =
      All (λ task. (task.name ≡ "quobyte-device-prober") ⊎ IsCoreTask task) tasks
  LaunchesCore _ = Unit

  kill-LaunchesCore :
      (offer : Offer R) (node : NodeState) (s : Scheduler R) (c : Call R)
      → KillsRunning offer node s c
      → LaunchesCore c
  kill-LaunchesCore offer node s c (service, stopped, runs, kills) =
      subst LaunchesCore (sym kills) tt

  close-LaunchesCore :
      (id : String) (tasks : List (TaskInfo R))
      → All IsCoreTask tasks
      → LaunchesCore (if is_empty tasks then decline_offer id else launch_tasks id tasks)
  close-LaunchesCore id [] h = tt
  close-LaunchesCore id (t ∷ ts) h =
      All-map IsCoreTask (λ task. (task.name ≡ "quobyte-device-prober") ⊎ IsCoreTask task) (t ∷ ts)
        (λ task core. inr core) h

module _ {ℓ} {R : Type ℓ} (flags : Flags) (ops : ResourceOps R) (persisted : SchedulerState)
    (encode_request : ProbeRequest → String) where
  abbrev AllCore : Scheduler R × List (Call R) → Type 0
  AllCore r = All LaunchesCore r.1

  offer_to_services-LaunchesCore :
      (offer : Offer R) (node : NodeState) (s : Scheduler R)
      → 3 < length node.device_type
      → Ensures AllCore (offer_to_services flags ops persisted offer node s)
  offer_to_services-LaunchesCore offer node s crowded =
      offer_to_services_cases flags ops persisted encode_request 0 (Ensures AllCore) offer node s
        (λ _.
          elim (Option-cases (start_services flags ops persisted offer (new_round offer node s))) [
            | inl aborted ↦ rw aborted tt
            | inr (r, started) ↦ rw started (
              close-LaunchesCore offer.id r.tasks (
                  start_services-IsCoreTask flags ops persisted offer (new_round offer node s) r
                    crowded started tt),
              tt,
            )
          ])
        (λ _.
          All-append LaunchesCore (kill_services offer node s) (decline_offer offer.id ∷ [])
            (All-map (KillsRunning offer node s) LaunchesCore (kill_services offer node s)
              (kill-LaunchesCore offer node s) (kill_services-All offer node s))
            (tt, tt))

  launch_prober-LaunchesCore :
      (now : ℕ) (offer : Offer R) (node : NodeState) (s : Scheduler R)
      → Ensures AllCore (launch_prober flags ops persisted encode_request now offer node s)
  unfolding launch_prober
  launch_prober-LaunchesCore now offer node s =
      elim (Option-cases (create_prober_task_info {R = R} flags persisted.framework_id_value)) [
        | inl aborted ↦ rw aborted tt
        | inr (info, made) ↦ rw made ((inl refl, tt), tt)
      ]

  -- On an offer of a host whose prober lists more than three devices, the tasks that are launched
  -- are the prober and registry, metadata and data services only: no API, S3, console or client is
  -- ever launched there.
  pub handle_offer-LaunchesCore :
      (now : ℕ) (offer : Offer R) (s : Scheduler R) (node : NodeState)
      → Dict.find offer.hostname s.nodes ≡ some node
      → 3 < length node.device_type
      → Ensures
          (λ r. All LaunchesCore r.1)
          (handle_offer flags ops persisted encode_request now offer s)
  unfolding reconcile_host trigger_discovery
  handle_offer-LaunchesCore now offer s node listed crowded =
      handle_offer_cases flags ops persisted encode_request now (Ensures AllCore) offer s (tt, tt)
        (λ _. (tt, (tt, tt)))
        λ node' found.
          let same : node ≡ node' = ground (arith, listed, found) in
          known_offer_cases flags ops persisted encode_request now (Ensures AllCore) offer
            (offered now node') _ (λ _. launch_prober-LaunchesCore now offer _ _)
            (tt, (tt, (tt, tt))) (offer_to_services-LaunchesCore offer _ _ (rw (← same) crowded))
