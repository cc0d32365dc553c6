-- ===== src/Scheduler/Offers/Singletons.antt =====
-- scheduler/scheduler.cpp: the launches of services that all hosts share, over all offers of a call.
use mathlib.Core.List.{append_assoc}
use mesos_framework.Base.{
  ℕ, ◌+◌, String, ◌≡◌, refl, ◌∙◌, subst, inl, inr, true, false, List, [], ◌∷◌, ◌++◌, Option, none,
  some, arith, Option-cases, Ensures, Ensures->>=, is_empty, if◌then◌else◌, ◌==◌,
}
use mesos_framework.Flags.{Flags}
use mesos_framework.Proto.{NodeState, ServiceState, SchedulerState, ProbeRequest}
use mesos_framework.Mesos.{Offer, Call, TaskInfo, decline_offer, launch_tasks, ResourceOps}
use mesos_framework.Scheduler.Policy.{kill_service_if_running}
use mesos_framework.Scheduler.State.{Scheduler, Service, api, s3, console, is_shared, create_host}
use mesos_framework.Scheduler.State.Fields.{task_name}
use mesos_framework.Scheduler.Task.{create_prober_task_info}
use mesos_framework.Scheduler.Services.{start_services, kill_services}
use mesos_framework.Scheduler.Services.Counts.{
  shared_state, count_named, LaunchesOnce, LaunchesOnce-add,
}
use mesos_framework.Scheduler.Services.Rounds.{start_services-RoundLaunches}
use mesos_framework.Scheduler.Offers.{
  reconcile_host, launch_prober, trigger_discovery, offer_to_services, handle_offer,
  resource_offers, new_round, put_node,
}
use mesos_framework.Scheduler.Offers.Cases.{
  offered, known_offer_cases, handle_offer_cases, offer_to_services_cases,
}

module _ {ℓ} {R : Type ℓ} where
  -- How many tasks of a name calls launch.
  abbrev pub launches : String → List (Call R) → ℕ
  launches name [] = 0
  launches name (launch_tasks id tasks ∷ calls) = count_named name tasks + launches name calls
  launches name (_ ∷ calls) = launches name calls

  pub launches-append :
      (name : String) (xs ys : List (Call R))
      → launches name (xs ++ ys) ≡ launches name xs + launches name ys
  launches-append name [] ys = omega arith
  launches-append name (launch_tasks id tasks ∷ xs) ys = omega (arith, launches-append name xs ys)
  launches-append name (_ ∷ xs) ys = launches-append name xs ys

  launches-kill :
      (name id : String) (v : ServiceState) (calls : List (Call R))
      → launches name (kill_service_if_running id v ++ calls) ≡ launches name calls
  unfolding kill_service_if_running
  launches-kill name id v calls = ground arith

  pub launches-kill_services :
      (name : String) (offer : Offer R) (node : NodeState) (s : Scheduler R) (calls : List (Call R))
      → launches name (kill_services offer node s ++ calls) ≡ launches name calls
  unfolding kill_services
  launches-kill_services name offer node s calls = simp (append_assoc, launches-kill)

  launches-close :
      (name id : String) (tasks : List (TaskInfo R))
      → launches name ((if is_empty tasks then decline_offer id else launch_tasks id tasks) ∷ [])
        ≡ count_named name tasks
  launches-close name id [] = refl
  launches-close name id (t ∷ ts) = omega arith

  shared_state-put_node :
      (service : Service) (hostname : String) (node : NodeState) (s : Scheduler R)
      → shared_state service (put_node hostname node s) ≡ shared_state service s
  shared_state-put_node api hostname node s = refl
  shared_state-put_node s3 hostname node s = refl
  shared_state-put_node _ hostname node s = refl

  pub shared_state-create_host :
      (service : Service) (hostname slave_id : String) (s : Scheduler R)
      → shared_state service (create_host hostname slave_id s) ≡ shared_state service s
  unfolding create_host
  shared_state-create_host api hostname slave_id s = refl
  shared_state-create_host s3 hostname slave_id s = refl
  shared_state-create_host _ hostname slave_id s = refl

  -- What a handler's calls launch of a service, and the state that it leaves it in.
  abbrev pub Launches : Service → Scheduler R → Scheduler R × List (Call R) → Type 0
  Launches service s r =
      LaunchesOnce (shared_state service s) 0 (shared_state service r.0)
        (launches (task_name service) r.1)

module _ {ℓ} {R : Type ℓ} (flags : Flags) (ops : ResourceOps R) (persisted : SchedulerState)
    (encode_request : ProbeRequest → String) (service : Service)
    (shared : is_shared service ≡ true) where
  offer_to_services-Launches :
      (offer : Offer R) (node : NodeState) (s : Scheduler R)
      → Ensures (Launches service s) (offer_to_services flags ops persisted offer node s)
  offer_to_services-Launches offer node s =
      offer_to_services_cases flags ops persisted encode_request 0 (Ensures (Launches service s))
        offer node s
        (λ _.
          elim (Option-cases (start_services flags ops persisted offer (new_round offer node s))) [
            | inl aborted ↦ rw aborted tt
            | inr (r, started) ↦
                rw
                  (
                    started,
                    launches-close (task_name service) offer.id r.tasks,
                    shared_state-put_node service offer.hostname r.node r.scheduler,
                  )
                  (start_services-RoundLaunches flags ops persisted offer service
                    (new_round offer node s) r shared started)
          ])
        (λ _. inl (refl, launches-kill_services (task_name service) offer node s _))

  prober-differs : ("quobyte-device-prober" == task_name service) ≡ false
  prober-differs = go service shared
    where
      go :
          (service : Service)
          → is_shared service ≡ true
          → ("quobyte-device-prober" == task_name service) ≡ false
      go api h = refl
      go s3 h = refl
      go console h = refl
      go _ h = cc

  launch_prober-Launches :
      (now : ℕ) (offer : Offer R) (node : NodeState) (s : Scheduler R)
      → Ensures
          (Launches service s)
          (launch_prober flags ops persisted encode_request now offer node s)
  unfolding launch_prober
  launch_prober-Launches now offer node s =
      elim (Option-cases (create_prober_task_info {R = R} flags persisted.framework_id_value)) [
        | inl aborted ↦ rw aborted tt
        | inr (info, made) ↦
            rw made (inl (shared_state-put_node service offer.hostname _ s, rw prober-differs refl))
      ]

  -- The node that is written before leaves the shared services alone.
  after-put_node :
      (hostname : String) (node : NodeState) (s : Scheduler R)
      (o : Option (Scheduler R × List (Call R)))
      → Ensures (Launches service (put_node hostname node s)) o
      → Ensures (Launches service s) o
  after-put_node hostname node s none h = tt
  after-put_node hostname node s (some r) h =
      subst (λ v. LaunchesOnce v 0 (shared_state service r.0) (launches (task_name service) r.1))
        (shared_state-put_node service hostname node s) h

  handle_offer-Launches :
      (now : ℕ) (offer : Offer R) (s : Scheduler R)
      → Ensures (Launches service s) (handle_offer flags ops persisted encode_request now offer s)
  unfolding reconcile_host trigger_discovery
  handle_offer-Launches now offer s =
      handle_offer_cases flags ops persisted encode_request now (Ensures (Launches service s)) offer
        s (inl (refl, refl))
        (λ _. inl (shared_state-create_host service offer.hostname offer.slave_id s, refl))
        λ node _. after-put_node offer.hostname (offered now node) s _ (
          known_offer_cases flags ops persisted encode_request now
            (Ensures (Launches service (put_node offer.hostname (offered now node) s))) offer
            (offered now node) (put_node offer.hostname (offered now node) s)
            (λ _. launch_prober-Launches now offer _ _)
            (inl (
              shared_state-create_host service offer.hostname offer.slave_id _
                  ∙ shared_state-put_node service offer.hostname _ _,
              refl,
            ))
            (offer_to_services-Launches offer _ _))

  -- Over all the offers of a call that does not abort, the API, S3 and the console are each
  -- launched at most once, and then only if the service was known not to run before; it is
  -- recorded as running afterwards. Where it is not launched, its state stays the same.
  pub resource_offers-Launches :
      (offers : List (ℕ × Offer R)) (s : Scheduler R)
      → Ensures (Launches service s) (resource_offers flags ops persisted encode_request offers s)
  unfolding resource_offers
  resource_offers-Launches [] s = inl (refl, refl)
  resource_offers-Launches ((now, offer) ∷ offers) s =
      Ensures->>= (Launches service s) (Launches service s)
        (handle_offer flags ops persisted encode_request now offer s) _
        (handle_offer-Launches now offer s)
        λ r first.
          Ensures->>= (Launches service s) (Launches service r.0)
            (resource_offers flags ops persisted encode_request offers r.0) _
            (resource_offers-Launches offers r.0)
            λ r' rest. rw (launches-append (task_name service) r.1 r'.1) (
              LaunchesOnce-add (shared_state service s) (shared_state service r.0)
                (shared_state service r'.0) (launches (task_name service) r.1)
                (launches (task_name service) r'.1) first rest)
