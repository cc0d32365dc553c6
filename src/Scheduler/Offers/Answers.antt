-- ===== src/Scheduler/Offers/Answers.antt =====
-- scheduler/scheduler.cpp: the answers of `resourceOffers` to the offers.
use mathlib.Core.List.{append_assoc}
use mesos_framework.Base.{
  ℕ, String, ◌≡◌, refl, ap, List, [], ◌∷◌, ◌++◌, map, arith, Ensures, Ensures->>=, if◌then◌else◌,
  is_empty, Option-cases, inl, inr,
}
use mesos_framework.Flags.{Flags}
use mesos_framework.Proto.{ServiceState, NodeState, SchedulerState, ProbeRequest}
use mesos_framework.Mesos.{
  Offer, TaskInfo, Call, decline_offer, launch_tasks, kill_task, reconcile_tasks,
  send_framework_message, ResourceOps,
}
use mesos_framework.Scheduler.Policy.{kill_service_if_running}
use mesos_framework.Scheduler.Task.{create_prober_task_info}
use mesos_framework.Scheduler.State.{Scheduler}
use mesos_framework.Scheduler.Services.{start_services, kill_services}
use mesos_framework.Scheduler.Offers.{
  reconcile_host, launch_prober, trigger_discovery, offer_to_services, handle_offer,
  resource_offers, new_round,
}
use mesos_framework.Scheduler.Offers.Cases.{
  offer_to_services_cases, known_offer_cases, handle_offer_cases,
}

module _ {ℓ} {R : Type ℓ} where
  -- The offers that calls answer, in order: an offer is declined, or tasks are launched on it.
  abbrev pub answers : List (Call R) → List String
  answers [] = []
  answers (decline_offer id ∷ calls) = id ∷ answers calls
  answers (launch_tasks id tasks ∷ calls) = id ∷ answers calls
  answers (kill_task id ∷ calls) = answers calls
  answers (reconcile_tasks statuses ∷ calls) = answers calls
  answers (send_framework_message executor slave text ∷ calls) = answers calls

  answers-append : (xs ys : List (Call R)) → answers (xs ++ ys) ≡ answers xs ++ answers ys
  answers-append [] ys = refl
  answers-append (decline_offer id ∷ xs) ys = ap (◌∷◌ id) (answers-append xs ys)
  answers-append (launch_tasks id tasks ∷ xs) ys = ap (◌∷◌ id) (answers-append xs ys)
  answers-append (kill_task id ∷ xs) ys = answers-append xs ys
  answers-append (reconcile_tasks statuses ∷ xs) ys = answers-append xs ys
  answers-append (send_framework_message e m t ∷ xs) ys = answers-append xs ys

  answers-kill :
      (id : String) (v : ServiceState) (calls : List (Call R))
      → answers (kill_service_if_running id v ++ calls) ≡ answers calls
  unfolding kill_service_if_running
  answers-kill id v calls = ground arith

  answers-kill_services :
      (offer : Offer R) (node : NodeState) (s : Scheduler R) (calls : List (Call R))
      → answers (kill_services offer node s ++ calls) ≡ answers calls
  unfolding kill_services
  answers-kill_services offer node s calls = simp (append_assoc, answers-kill)

module _ {ℓ} {R : Type ℓ} (flags : Flags) (ops : ResourceOps R) (persisted : SchedulerState)
    (encode_request : ProbeRequest → String) where
  abbrev pub AnswersTo : List String → Scheduler R × List (Call R) → Type 0
  AnswersTo ids r = answers r.1 ≡ ids

  offer_to_services-answers :
      (offer : Offer R) (node : NodeState) (s : Scheduler R)
      → Ensures (AnswersTo (offer.id ∷ [])) (offer_to_services flags ops persisted offer node s)
  offer_to_services-answers offer node s =
      offer_to_services_cases flags ops persisted encode_request 0
        (Ensures (AnswersTo (offer.id ∷ []))) offer node s
        (λ _.
          elim (Option-cases (start_services flags ops persisted offer (new_round offer node s))) [
            | inl aborted ↦ rw aborted tt
            | inr (r, started) ↦ rw started (close r.tasks)
          ])
        (λ _. answers-kill_services offer node s (decline_offer offer.id ∷ []))
    where
      close :
          (tasks : List (TaskInfo R))
          → answers (
              (if is_empty tasks then decline_offer offer.id else launch_tasks offer.id tasks) ∷ [])
            ≡ offer.id ∷ []
      close [] = refl
      close (t ∷ ts) = refl

  launch_prober-answers :
      (now : ℕ) (offer : Offer R) (node : NodeState) (s : Scheduler R)
      → Ensures
          (AnswersTo (offer.id ∷ []))
          (launch_prober flags ops persisted encode_request now offer node s)
  unfolding launch_prober
  launch_prober-answers now offer node s =
      elim (Option-cases (create_prober_task_info {R = R} flags persisted.framework_id_value)) [
        | inl aborted ↦ rw aborted tt
        | inr (info, made) ↦ rw made refl
      ]

  handle_offer-answers :
      (now : ℕ) (offer : Offer R) (s : Scheduler R)
      → Ensures
          (AnswersTo (offer.id ∷ []))
          (handle_offer flags ops persisted encode_request now offer s)
  unfolding reconcile_host trigger_discovery
  handle_offer-answers now offer s =
      handle_offer_cases flags ops persisted encode_request now
        (Ensures (AnswersTo (offer.id ∷ []))) offer s refl (λ _. refl)
        λ node _.
          known_offer_cases flags ops persisted encode_request now
            (Ensures (AnswersTo (offer.id ∷ []))) offer _ _
            (λ _. launch_prober-answers now offer _ _) refl (offer_to_services-answers offer _ _)

  -- Where the scheduler does not abort, it answers each offer exactly once, by declining it or by
  -- launching tasks on it, in the order in which the offers came.
  pub resource_offers-answers :
      (offers : List (ℕ × Offer R)) (s : Scheduler R)
      → Ensures
          (AnswersTo (map (λ o. o.1.id) offers))
          (resource_offers flags ops persisted encode_request offers s)
  unfolding resource_offers
  resource_offers-answers [] s = refl
  resource_offers-answers ((now, offer) ∷ offers) s =
      let P = AnswersTo (map (λ o. o.1.id) ((now, offer) ∷ offers)) in
      Ensures->>= P (AnswersTo (offer.id ∷ []))
        (handle_offer flags ops persisted encode_request now offer s) _
        (handle_offer-answers now offer s)
        λ r one.
          Ensures->>= P (AnswersTo (map (λ o. o.1.id) offers))
            (resource_offers flags ops persisted encode_request offers r.0) _
            (resource_offers-answers offers r.0) λ r' rest. rw (answers-append r.1 r'.1, one, rest)
