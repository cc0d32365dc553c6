-- ===== src/Scheduler/Offers/Naming.antt =====
-- scheduler/scheduler.cpp: the names, the ids and the slaves of the tasks that `resourceOffers`
-- launches.
use mesos_framework.Base.{
  ℕ, String, ◌≡◌, refl, sym, subst, ◌⊎◌, inl, inr, List, [], ◌∷◌, All, All-append, All-map,
  Option-cases, Ensures, Ensures->>=, is_empty, if◌then◌else◌,
}
use mesos_framework.Flags.{Flags}
use mesos_framework.Proto.{NodeState, SchedulerState, ProbeRequest}
use mesos_framework.Mesos.{Offer, TaskInfo, Call, decline_offer, launch_tasks, ResourceOps}
use mesos_framework.Scheduler.State.{Scheduler, prober}
use mesos_framework.Scheduler.Task.{create_prober_task_info}
use mesos_framework.Scheduler.Services.{start_services, kill_services}
use mesos_framework.Scheduler.Services.Killing.{KillsRunning, kill_services-All}
use mesos_framework.Scheduler.Services.Naming.{IsNamed, start_services-IsNamed}
use mesos_framework.Scheduler.Offers.{
  reconcile_host, launch_prober, trigger_discovery, offer_to_services, handle_offer,
  resource_offers, new_round,
}
use mesos_framework.Scheduler.Offers.Cases.{
  offered, known_offer_cases, handle_offer_cases, offer_to_services_cases,
}

module _ {ℓ} {R : Type ℓ} where
  -- A call that launches tasks launches them on this offer, and they are named for it.
  abbrev pub LaunchIsNamed : Offer R → Call R → Type 0
  LaunchIsNamed offer (launch_tasks id tasks) = (id ≡ offer.id) × All (IsNamed offer) tasks
  LaunchIsNamed offer _ = Unit

  -- The same for one of several offers.
  abbrev pub IsNamedIn : List (ℕ × Offer R) → Call R → Type 0
  IsNamedIn [] (launch_tasks id tasks) = ⊥
  IsNamedIn [] _ = Unit
  IsNamedIn ((now, offer) ∷ offers) c = LaunchIsNamed offer c ⊎ IsNamedIn offers c

  kill-IsNamed :
      (offer : Offer R) (node : NodeState) (s : Scheduler R) (c : Call R)
      → KillsRunning offer node s c
      → LaunchIsNamed offer c
  kill-IsNamed offer node s c (service, stopped, runs, kills) =
      subst (LaunchIsNamed offer) (sym kills) tt

  close-IsNamed :
      (offer : Offer R) (tasks : List (TaskInfo R))
      → All (IsNamed offer) tasks
      → LaunchIsNamed offer
          (if is_empty tasks then decline_offer offer.id else launch_tasks offer.id tasks)
  close-IsNamed offer [] h = tt
  close-IsNamed offer (t ∷ ts) h = (refl, h)

module _ {ℓ} {R : Type ℓ} (flags : Flags) (ops : ResourceOps R) (persisted : SchedulerState)
    (encode_request : ProbeRequest → String) where
  abbrev AllNamed : Offer R → Scheduler R × List (Call R) → Type 0
  AllNamed offer r = All (LaunchIsNamed offer) r.1

  offer_to_services-IsNamed :
      (offer : Offer R) (node : NodeState) (s : Scheduler R)
      → Ensures (AllNamed offer) (offer_to_services flags ops persisted offer node s)
  offer_to_services-IsNamed offer node s =
      offer_to_services_cases flags ops persisted encode_request 0 (Ensures (AllNamed offer)) offer
        node s
        (λ _.
          elim (Option-cases (start_services flags ops persisted offer (new_round offer node s))) [
            | inl aborted ↦ rw aborted tt
            | inr (r, started) ↦ rw started (
              close-IsNamed offer r.tasks (
                  start_services-IsNamed flags ops persisted offer (new_round offer node s) r
                    started tt),
              tt,
            )
          ])
        (λ _.
          All-append (LaunchIsNamed offer) (kill_services offer node s)
            (decline_offer offer.id ∷ [])
            (All-map (KillsRunning offer node s) (LaunchIsNamed offer) (kill_services offer node s)
              (kill-IsNamed offer node s) (kill_services-All offer node s))
            (tt, tt))

  launch_prober-IsNamed :
      (now : ℕ) (offer : Offer R) (node : NodeState) (s : Scheduler R)
      → Ensures (AllNamed offer) (launch_prober flags ops persisted encode_request now offer node s)
  unfolding launch_prober
  launch_prober-IsNamed now offer node s =
      elim (Option-cases (create_prober_task_info {R = R} flags persisted.framework_id_value)) [
        | inl aborted ↦ rw aborted tt
        | inr (info, made) ↦ rw made ((refl, ((prober, refl, refl, refl), tt)), tt)
      ]

  handle_offer-IsNamed :
      (now : ℕ) (offer : Offer R) (s : Scheduler R)
      → Ensures (AllNamed offer) (handle_offer flags ops persisted encode_request now offer s)
  unfolding reconcile_host trigger_discovery
  handle_offer-IsNamed now offer s =
      handle_offer_cases flags ops persisted encode_request now (Ensures (AllNamed offer)) offer s
        (tt, tt) (λ _. (tt, (tt, tt)))
        λ node _.
          known_offer_cases flags ops persisted encode_request now (Ensures (AllNamed offer)) offer
            (offered now node) _ (λ _. launch_prober-IsNamed now offer _ _) (tt, (tt, (tt, tt)))
            (offer_to_services-IsNamed offer _ _)

  -- Every task that `resourceOffers` launches, over all the offers of a call that does not abort,
  -- is launched on one of the offers and on the slave of that offer, under the name of a service;
  -- its id is the one that `statusUpdate` takes apart: that name, a dash and the offer's host.
  pub resource_offers-IsNamedIn :
      (offers : List (ℕ × Offer R)) (s : Scheduler R)
      → Ensures
          (λ r. All (IsNamedIn offers) r.1)
          (resource_offers flags ops persisted encode_request offers s)
  unfolding resource_offers
  resource_offers-IsNamedIn [] s = tt
  resource_offers-IsNamedIn ((now, offer) ∷ offers) s =
      let Goal : Scheduler R × List (Call R) → Type 0 =
        λ r. All (IsNamedIn ((now, offer) ∷ offers)) r.1 in
      Ensures->>= Goal (AllNamed offer)
        (handle_offer flags ops persisted encode_request now offer s) _
        (handle_offer-IsNamed now offer s)
        λ r first.
          Ensures->>= Goal (λ r'. All (IsNamedIn offers) r'.1)
            (resource_offers flags ops persisted encode_request offers r.0) _
            (resource_offers-IsNamedIn offers r.0)
            λ r' rest.
              All-append (IsNamedIn ((now, offer) ∷ offers)) r.1 r'.1
                (All-map (LaunchIsNamed offer) (IsNamedIn ((now, offer) ∷ offers)) r.1
                  (λ c h. inl h) first)
                (All-map (IsNamedIn offers) (IsNamedIn ((now, offer) ∷ offers)) r'.1 (λ c h. inr h)
                  rest)
