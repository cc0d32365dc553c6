-- ===== src/Scheduler/Tracking/Offers.antt =====
-- scheduler/scheduler.cpp: tasks on record, through `resourceOffers`.
use mesos_framework.Base.{ℕ, String, List, [], ◌∷◌, Option-cases, inl, inr, Ensures, Ensures->>=}
use mesos_framework.Base.Dict
use mesos_framework.Flags.{Flags}
use mesos_framework.Proto.{NodeState, SchedulerState, ProbeRequest}
use mesos_framework.Mesos.{Offer, Call, ResourceOps}
use mesos_framework.Scheduler.Task.{create_prober_task_info}
use mesos_framework.Scheduler.State.{Scheduler}
use mesos_framework.Scheduler.Services.{start_services}
use mesos_framework.Scheduler.Offers.{
  reconcile_host, launch_prober, trigger_discovery, offer_to_services, handle_offer,
  resource_offers, new_round, put_node,
}
use mesos_framework.Scheduler.Offers.Cases.{
  offered, known_offer_cases, handle_offer_cases, offer_to_services_cases,
}
use mesos_framework.Scheduler.Tracking.{
  NodeIsTracked, SchedulerIsTracked, create_host-SchedulerIsTracked, modify-SchedulerIsTracked,
}
use mesos_framework.Scheduler.Tracking.Rounds.{start_services-RoundIsTracked}

module _ {ℓ} {R : Type ℓ} (flags : Flags) (ops : ResourceOps R) (persisted : SchedulerState)
    (encode_request : ProbeRequest → String) where
  abbrev LeavesTracked : Scheduler R × List (Call R) → Type 0
  LeavesTracked r = SchedulerIsTracked r.0

  put_node-SchedulerIsTracked :
      (hostname : String) (node : NodeState) (s : Scheduler R)
      → NodeIsTracked node
      → SchedulerIsTracked s
      → SchedulerIsTracked (put_node hostname node s)
  put_node-SchedulerIsTracked hostname node s n h =
      modify-SchedulerIsTracked hostname (λ _. node) s (λ _ _. n) h

  offer_to_services-LeavesTracked :
      (offer : Offer R) (node : NodeState) (s : Scheduler R)
      → NodeIsTracked node
      → SchedulerIsTracked s
      → Ensures LeavesTracked (offer_to_services flags ops persisted offer node s)
  offer_to_services-LeavesTracked offer node s n h =
      offer_to_services_cases flags ops persisted encode_request 0 (Ensures LeavesTracked) offer
        node s
        (λ _.
          elim (Option-cases (start_services flags ops persisted offer (new_round offer node s))) [
            | inl aborted ↦ rw aborted tt
            | inr (r, started) ↦
                let (h', n') =
                  start_services-RoundIsTracked flags ops persisted offer (new_round offer node s) r
                    started (h, n) in
                rw started (put_node-SchedulerIsTracked offer.hostname r.node r.scheduler n' h')
          ])
        (λ _. h)

  launch_prober-LeavesTracked :
      (now : ℕ) (offer : Offer R) (node : NodeState) (s : Scheduler R)
      → NodeIsTracked node
      → SchedulerIsTracked s
      → Ensures LeavesTracked (launch_prober flags ops persisted encode_request now offer node s)
  unfolding launch_prober
  launch_prober-LeavesTracked now offer node s (a, b, c, d, e) h =
      elim (Option-cases (create_prober_task_info {R = R} flags persisted.framework_id_value)) [
        | inl aborted ↦ rw aborted tt
        | inr (info, made) ↦
            rw made (put_node-SchedulerIsTracked offer.hostname _ s ((λ k. cc), b, c, d, e) h)
      ]

  handle_offer-LeavesTracked :
      (now : ℕ) (offer : Offer R) (s : Scheduler R)
      → SchedulerIsTracked s
      → Ensures LeavesTracked (handle_offer flags ops persisted encode_request now offer s)
  unfolding reconcile_host trigger_discovery
  handle_offer-LeavesTracked now offer s h =
      handle_offer_cases flags ops persisted encode_request now (Ensures LeavesTracked) offer s h
        (λ _. create_host-SchedulerIsTracked offer.hostname offer.slave_id s h)
        λ node found.
          let n = Dict.find-AllValues NodeIsTracked offer.hostname node s.nodes h.3 found in
          let noted = put_node offer.hostname (offered now node) s in
          let h' = put_node-SchedulerIsTracked offer.hostname (offered now node) s n h in
          known_offer_cases flags ops persisted encode_request now (Ensures LeavesTracked) offer
            (offered now node) noted
            (λ _. launch_prober-LeavesTracked now offer (offered now node) noted n h')
            (create_host-SchedulerIsTracked offer.hostname offer.slave_id
              (put_node offer.hostname (record node { last_offer_s = now; last_probe_s = now })
                noted)
              (put_node-SchedulerIsTracked offer.hostname _ noted n h'))
            (offer_to_services-LeavesTracked offer (offered now node) noted n h')

  pub resource_offers-LeavesTracked :
      (offers : List (ℕ × Offer R)) (s : Scheduler R)
      → SchedulerIsTracked s
      → Ensures LeavesTracked (resource_offers flags ops persisted encode_request offers s)
  unfolding resource_offers
  resource_offers-LeavesTracked [] s h = h
  resource_offers-LeavesTracked ((now, offer) ∷ offers) s h =
      Ensures->>= LeavesTracked LeavesTracked
        (handle_offer flags ops persisted encode_request now offer s) _
        (handle_offer-LeavesTracked now offer s h)
        λ r first.
          Ensures->>= LeavesTracked LeavesTracked
            (resource_offers flags ops persisted encode_request offers r.0) _
            (resource_offers-LeavesTracked offers r.0 first) λ r' rest. rest
