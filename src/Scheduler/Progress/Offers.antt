-- ===== src/Scheduler/Progress/Offers.antt =====
-- scheduler/scheduler.cpp: what single offers do for a host, where nothing stands in the way.
use text.Mathlib.Text.{find?}
use mesos_framework.Base.{
  ℕ, String, ◌≡◌, ◌≢◌, refl, ◌∙◌, true, false, not, ◌&&◌, List, [], ◌∷◌, ◌++◌, none, some, arith,
  is_none, Option-cases, inl, inr, get_or,
}
use mesos_framework.Base.Text.{is_empty}
use mesos_framework.Base.Dict
use mesos_framework.Base.Dict.{Dict}
use mesos_framework.Flags.{Flags}
use mesos_framework.Proto.{starting, NodeState, SchedulerState, ProbeRequest}
use mesos_framework.Mesos.{TaskInfo, Offer, Call, decline_offer, launch_tasks, ResourceOps}
use mesos_framework.Scheduler.Names.{prober_task, id_on}
use mesos_framework.Scheduler.State.{Scheduler, new_host, resources_for}
use mesos_framework.Scheduler.Task.{create_prober_task_info}
use mesos_framework.Scheduler.Offers.{
  put_node, reconcile_host, prober_is_due, launch_prober, probe_is_due, trigger_discovery,
  offer_to_services, known_offer, handle_offer, resource_offers,
}
use mesos_framework.Scheduler.Offers.Cases.{offered}
use mesos_framework.Scheduler.Progress.{
  At, put_node-At, create_host-At, create_host-At_new, empty-false,
}

-- The flags accept offers of the host.
abbrev pub IsAllowed : Flags → String → Type 0
IsAllowed flags hostname =
    (not (is_empty flags.restrict_hosts) && is_none (find? flags.restrict_hosts hostname)) ≡ false

module _ {ℓ} {R : Type ℓ} (flags : Flags) (ops : ResourceOps R) (persisted : SchedulerState)
    (encode_request : ProbeRequest → String) (now : ℕ) (offer : Offer R)
    (allowed : IsAllowed flags offer.hostname) where
  -- An offer alone in its call.
  pub one_offer :
      (s s' : Scheduler R) (calls : List (Call R))
      → handle_offer flags ops persisted encode_request now offer s ≡ some (s', calls)
      → resource_offers flags ops persisted encode_request ((now, offer) ∷ []) s
        ≡ some (s', calls ++ [])
  unfolding resource_offers
  one_offer s s' calls e = rw e refl

  pub fresh_offer :
      (s : Scheduler R)
      → Dict.find offer.hostname s.nodes ≡ none
      → (s' : Scheduler R) × (calls : List (Call R)) × (handle_offer flags ops persisted
            encode_request now offer s
          ≡ some (s', calls))
        × At offer.hostname (new_host offer.hostname offer.slave_id) s.resources s'
  unfolding handle_offer reconcile_host
  fresh_offer s missing = (
    (reconcile_host offer s).0,
    (reconcile_host offer s).1 ++ decline_offer offer.id ∷ [],
    rw (allowed, missing) refl,
    create_host-At_new offer.hostname offer.slave_id s missing,
  )

  pub handle_offer-known :
      (s : Scheduler R) (n : NodeState)
      → Dict.find offer.hostname s.nodes ≡ some n
      → handle_offer flags ops persisted encode_request now offer s
        ≡ known_offer flags ops persisted encode_request now offer
            (offered now n)
            (put_node offer.hostname (offered now n) s)
  unfolding handle_offer
  handle_offer-known s n known = rw (allowed, known) refl

  -- The prober is launched where it is due and fits into the offer.
  pub prober_offer :
      (s : Scheduler R) (n : NodeState) (table : Dict R)
      → flags.framework_image ≢ ""
      → At offer.hostname n table s
      → prober_is_due flags ops persisted encode_request now (offered now n) ≡ true
      → ops.contains offer.resources (get_or ops.nothing (Dict.find prober_task table)) ≡ true
      → (s' : Scheduler R) × (task : TaskInfo R) × (handle_offer flags ops persisted encode_request
            now offer s
          ≡ some (s', launch_tasks offer.id (task ∷ []) ∷ []))
        × (task.task_id ≡ id_on "quobyte-device-prober" offer.hostname)
        × At offer.hostname
            (record (offered now n) {
              prober = record n.prober { state = starting; last_update_s = now };
            })
            table
            s'
  unfolding known_offer launch_prober create_prober_task_info
  prober_offer s n table named h due fits =
      let image = empty-false flags.framework_image named in
      let known = handle_offer-known s n h.0 in
      let fits' = rw (← h.1) at fits in
      elim (Option-cases (create_prober_task_info {R = R} flags persisted.framework_id_value)) [
        | inl aborted ↦ absurd (ground (arith, image))
        | inr (info, made) ↦
            let task : TaskInfo R = record info {
              name = "quobyte-device-prober";
              task_id = id_on "quobyte-device-prober" offer.hostname;
              slave_id = offer.slave_id;
              resources = some (resources_for flags ops prober_task s);
            } in
            let noted = put_node offer.hostname (offered now n) s in
            let launched = record (offered now n) {
              prober = record n.prober { state = starting; last_update_s = now };
            } in
            (
              put_node offer.hostname launched noted,
              task,
              known ∙ rw (due, fits', launch_prober, made) refl,
              refl,
              put_node-At offer.hostname (offered now n) launched table noted
                  (put_node-At offer.hostname n (offered now n) table s h),
            )
      ]

  -- A probe that is due is sent where no prober is to be launched.
  pub probe_offer :
      (s : Scheduler R) (n : NodeState) (table : Dict R)
      → At offer.hostname n table s
      → prober_is_due flags ops persisted encode_request now (offered now n) ≡ false
      → probe_is_due flags ops persisted encode_request now (offered now n) ≡ true
      → (s' : Scheduler R) × (calls : List (Call R)) × (handle_offer flags ops persisted
            encode_request now offer s
          ≡ some (s', calls))
        × At offer.hostname (record (offered now n) { last_probe_s = now }) table s'
  unfolding known_offer trigger_discovery reconcile_host
  probe_offer s n table h idle due =
      let noted = put_node offer.hostname (offered now n) s in
      let probed = record (offered now n) { last_probe_s = now } in
      let after =
        put_node-At offer.hostname (offered now n) probed table noted
          (put_node-At offer.hostname n (offered now n) table s h) in
      let sent =
        trigger_discovery flags ops persisted encode_request now offer (offered now n)
          (put_node offer.hostname (offered now n) s) in
      (
        sent.0,
        sent.1,
        handle_offer-known s n h.0 ∙ rw (idle, due) refl,
        create_host-At offer.hostname offer.slave_id probed table
            (put_node offer.hostname probed noted) after,
      )

  -- Otherwise the offer goes to the services.
  pub service_offer :
      (s : Scheduler R) (n : NodeState)
      → Dict.find offer.hostname s.nodes ≡ some n
      → prober_is_due flags ops persisted encode_request now (offered now n) ≡ false
      → probe_is_due flags ops persisted encode_request now (offered now n) ≡ false
      → handle_offer flags ops persisted encode_request now offer s
        ≡ offer_to_services flags ops persisted offer
            (offered now n)
            (put_node offer.hostname (offered now n) s)
  unfolding known_offer
  service_offer s n known idle quiet = handle_offer-known s n known ∙ rw (idle, quiet) refl
