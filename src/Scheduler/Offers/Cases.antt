-- ===== src/Scheduler/Offers/Cases.antt =====
-- scheduler/scheduler.cpp: the ways through the body of the loop over the offers.
use text.Mathlib.Text.{find?}
use mesos_framework.Base.{
  arith, ℕ, String, ◌≡◌, true, false, not, ◌&&◌, List, [], ◌∷◌, ◌++◌, Option, none, some,
  Bool-cases, Option-cases, inl, inr, is_none, ◌>>=◌,
}
use mesos_framework.Base.Text.{is_empty}
use mesos_framework.Base.Dict
use mesos_framework.Flags.{Flags}
use mesos_framework.Proto.{NodeState, SchedulerState, ProbeRequest}
use mesos_framework.Mesos.{Offer, Call, decline_offer, ResourceOps}
use mesos_framework.Scheduler.Names.{prober_task}
use mesos_framework.Scheduler.State.{Scheduler, resources_for}
use mesos_framework.Scheduler.Services.{start_services, kill_services}
use mesos_framework.Scheduler.Offers.{
  put_node, reconcile_host, prober_is_due, launch_prober, probe_is_due, trigger_discovery,
  offer_to_services, known_offer, new_round, close_round, handle_offer,
}

-- The node of an offer's host, once the time of the offer is noted.
abbrev pub offered : ℕ → NodeState → NodeState
offered now node = record node { last_offer_s = now }

module _ {ℓ κ} {R : Type ℓ} (flags : Flags) (ops : ResourceOps R) (persisted : SchedulerState)
    (encode_request : ProbeRequest → String) (now : ℕ)
    (P : Option (Scheduler R × List (Call R)) → Type κ) where
  pub known_offer_cases :
      (offer : Offer R) (node : NodeState) (s : Scheduler R)
      → (prober_is_due flags ops persisted encode_request now node ≡ true
          → P (launch_prober flags ops persisted encode_request now offer node s))
      → P (some (trigger_discovery flags ops persisted encode_request now offer node s))
      → P (offer_to_services flags ops persisted offer node s)
      → P (known_offer flags ops persisted encode_request now offer node s)
  unfolding known_offer
  known_offer_cases offer node s launch trigger services =
      elim (Bool-cases (
        prober_is_due flags ops persisted encode_request now node
        && ops.contains offer.resources (resources_for flags ops prober_task s))) [
          | inl due ↦ rw due (launch (ground arith))
          | inr not_due ↦
              elim (Bool-cases (probe_is_due flags ops persisted encode_request now node)) [
                | inl probe ↦ rw (not_due, probe) trigger
                | inr rest ↦ rw (not_due, rest) services
              ]
        ]

  pub handle_offer_cases :
      (offer : Offer R) (s : Scheduler R)
      → P (some (s, decline_offer offer.id ∷ []))
      → (Dict.find offer.hostname s.nodes ≡ none
          → P (
              some (
                (reconcile_host offer s).0,
                (reconcile_host offer s).1 ++ decline_offer offer.id ∷ [],
              )))
      → ((node : NodeState)
          → Dict.find offer.hostname s.nodes ≡ some node
          → P (
              known_offer flags ops persisted encode_request now offer
                (offered now node)
                (put_node offer.hostname (offered now node) s)))
      → P (handle_offer flags ops persisted encode_request now offer s)
  unfolding handle_offer
  handle_offer_cases offer s refused fresh known =
      elim (Bool-cases (
        not (is_empty flags.restrict_hosts)
        && is_none (find? flags.restrict_hosts offer.hostname))) [
          | inl out ↦ rw out refused
          | inr kept ↦ elim (Option-cases (Dict.find offer.hostname s.nodes)) [
            | inl missing ↦ rw (kept, missing) (fresh missing)
            | inr (node, found) ↦ rw (kept, found) (known node found)
          ]
        ]

  pub offer_to_services_cases :
      (offer : Offer R) (node : NodeState) (s : Scheduler R)
      → (is_empty persisted.target_version ≡ false
          → P (
              start_services flags ops persisted offer (new_round offer node s) >>= λ r.
              some (close_round offer r)))
      → (is_empty persisted.target_version ≡ true
          → P (some (s, kill_services offer node s ++ decline_offer offer.id ∷ [])))
      → P (offer_to_services flags ops persisted offer node s)
  unfolding offer_to_services
  offer_to_services_cases offer node s deploy shut =
      elim (Bool-cases (is_empty persisted.target_version)) [
        | inl none_set ↦ rw none_set (shut none_set)
        | inr set ↦ rw set (deploy set)
      ]
