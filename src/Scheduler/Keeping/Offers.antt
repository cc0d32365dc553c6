-- ===== src/Scheduler/Keeping/Offers.antt =====
-- scheduler/scheduler.cpp: running services, through `resourceOffers`.
use mesos_framework.Base.{
  ℕ, String, ◌≡◌, List, [], ◌∷◌, Option, none, some, arith, Option-cases, inl, inr, Ensures,
  Ensures->>=, eq_refl, true, subst,
}
use mesos_framework.Base.Dict
use mesos_framework.Flags.{Flags}
use mesos_framework.Proto.{NodeState, SchedulerState, ProbeRequest, starting}
use mesos_framework.Mesos.{Offer, Call, ResourceOps}
use mesos_framework.Scheduler.Task.{create_prober_task_info}
use mesos_framework.Scheduler.State.{Scheduler, create_host}
use mesos_framework.Scheduler.Services.{start_services}
use mesos_framework.Scheduler.Offers.{
  reconcile_host, launch_prober, trigger_discovery, offer_to_services, handle_offer,
  resource_offers, new_round, put_node, prober_is_due,
}
use mesos_framework.Scheduler.Offers.Cases.{
  offered, known_offer_cases, handle_offer_cases, offer_to_services_cases,
}
use mesos_framework.Scheduler.Keeping.{
  NodeKeeps, NodeKeeps-refl, SchedulerKeeps, SchedulerKeeps-refl, SchedulerKeeps-trans,
  create_host-SchedulerKeeps, modify-SchedulerKeeps,
}
use mesos_framework.Scheduler.Keeping.Rounds.{start_services-RoundKeeps}

module _ {ℓ} {R : Type ℓ} (flags : Flags) (ops : ResourceOps R) (persisted : SchedulerState)
    (encode_request : ProbeRequest → String) where
  abbrev pub Leaves : Scheduler R → Scheduler R × List (Call R) → Type 0
  Leaves s r = SchedulerKeeps s r.0

  put_node-SchedulerKeeps :
      (hostname : String) (n n' : NodeState) (s : Scheduler R)
      → Dict.find hostname s.nodes ≡ some n
      → NodeKeeps n n'
      → SchedulerKeeps s (put_node hostname n' s)
  put_node-SchedulerKeeps hostname n n' s found h =
      modify-SchedulerKeeps hostname (λ _. n') s
        (λ m at. let same : n ≡ m = ground arith in subst (λ k. NodeKeeps k n') same h)

  -- The node that was written is found again.
  find-put_node :
      (hostname : String) (n n' : NodeState) (s : Scheduler R)
      → Dict.find hostname s.nodes ≡ some n
      → Dict.find hostname (put_node hostname n' s).nodes ≡ some n'
  find-put_node hostname n n' s found =
      ground (arith, Dict.find-modify hostname hostname (λ _. n') s.nodes, eq_refl hostname)

  offer_to_services-Leaves :
      (offer : Offer R) (node : NodeState) (s : Scheduler R)
      → Dict.find offer.hostname s.nodes ≡ some node
      → Ensures (Leaves s) (offer_to_services flags ops persisted offer node s)
  offer_to_services-Leaves offer node s found =
      offer_to_services_cases flags ops persisted encode_request 0 (Ensures (Leaves s)) offer node s
        (λ _.
          elim (Option-cases (start_services flags ops persisted offer (new_round offer node s))) [
            | inl aborted ↦ rw aborted tt
            | inr (r, started) ↦
                let ((a, b, c, same), n) =
                  start_services-RoundKeeps flags ops persisted offer (new_round offer node s) r
                    started in
                rw started (
                  SchedulerKeeps-trans s r.scheduler (put_node offer.hostname r.node r.scheduler)
                    (a, b, c, λ host'. rw same ((SchedulerKeeps-refl s).3 host'))
                    (put_node-SchedulerKeeps offer.hostname node r.node r.scheduler (rw same found)
                      n))
          ])
        (λ _. SchedulerKeeps-refl s)

  launch_prober-Leaves :
      (now : ℕ) (offer : Offer R) (node : NodeState) (s : Scheduler R)
      → Dict.find offer.hostname s.nodes ≡ some node
      → prober_is_due flags ops persisted encode_request now node ≡ true
      → Ensures (Leaves s) (launch_prober flags ops persisted encode_request now offer node s)
  unfolding launch_prober prober_is_due
  launch_prober-Leaves now offer node s found due =
      elim (Option-cases (create_prober_task_info {R = R} flags persisted.framework_id_value)) [
        | inl aborted ↦ rw aborted tt
        | inr (info, made) ↦
            let (a, b, c, d, e, f, g) = NodeKeeps-refl node in
            let launched : NodeState = record node {
              prober = record node.prober { state = starting; last_update_s = now };
            } in
            rw made (
              put_node-SchedulerKeeps offer.hostname node launched s found
                ((λ up. absurd (ground arith)), b, c, d, e, f, g))
      ]

  handle_offer-Leaves :
      (now : ℕ) (offer : Offer R) (s : Scheduler R)
      → Ensures (Leaves s) (handle_offer flags ops persisted encode_request now offer s)
  unfolding reconcile_host trigger_discovery
  handle_offer-Leaves now offer s =
      handle_offer_cases flags ops persisted encode_request now (Ensures (Leaves s)) offer s
        (SchedulerKeeps-refl s) (λ _. create_host-SchedulerKeeps offer.hostname offer.slave_id s)
        λ node found.
          let n = offered now node in
          let noted = put_node offer.hostname n s in
          let kept = put_node-SchedulerKeeps offer.hostname node n s found (NodeKeeps-refl node) in
          let here = find-put_node offer.hostname node n s found in
          let probing = put_node offer.hostname (record n { last_probe_s = now }) noted in
          let made = create_host offer.hostname offer.slave_id probing in
          known_offer_cases flags ops persisted encode_request now (Ensures (Leaves s)) offer n
            noted (λ due. after noted _ kept (launch_prober-Leaves now offer n noted here due))
            (SchedulerKeeps-trans s noted made kept (
              SchedulerKeeps-trans noted probing made
                (put_node-SchedulerKeeps offer.hostname n (record n { last_probe_s = now }) noted
                  here (NodeKeeps-refl n))
                (create_host-SchedulerKeeps offer.hostname offer.slave_id probing)))
            (after noted _ kept (offer_to_services-Leaves offer n noted here))
    where
      after :
          (noted : Scheduler R) (o : Option (Scheduler R × List (Call R)))
          → SchedulerKeeps s noted
          → Ensures (Leaves noted) o
          → Ensures (Leaves s) o
      after noted none kept h = tt
      after noted (some r) kept h = SchedulerKeeps-trans s noted r.0 kept h

  pub resource_offers-Leaves :
      (offers : List (ℕ × Offer R)) (s : Scheduler R)
      → Ensures (Leaves s) (resource_offers flags ops persisted encode_request offers s)
  unfolding resource_offers
  resource_offers-Leaves [] s = SchedulerKeeps-refl s
  resource_offers-Leaves ((now, offer) ∷ offers) s =
      Ensures->>= (Leaves s) (Leaves s)
        (handle_offer flags ops persisted encode_request now offer s) _
        (handle_offer-Leaves now offer s)
        λ r first.
          Ensures->>= (Leaves s) (Leaves r.0)
            (resource_offers flags ops persisted encode_request offers r.0) _
            (resource_offers-Leaves offers r.0)
            λ r' rest. SchedulerKeeps-trans s r.0 r'.0 first rest
