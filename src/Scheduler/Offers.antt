-- ===== src/Scheduler/Offers.antt =====
-- scheduler/scheduler.cpp: `reconcileHost` and `resourceOffers`. The loop over the offers is
-- `resource_offers`, and its body `handle_offer`.
pub mod Cases
pub mod Answers
pub mod Readiness
pub mod Shutdown
pub mod Singletons
pub mod Crowded
pub mod Naming
use Prim.Native.String.{◌++◌ as append}
use text.Mathlib.Text.{find?}
use mesos_framework.Base.{
  ℕ, ◌+◌, String, Bool, true, false, not, ◌&&◌, ◌||◌, List, [], ◌∷◌, ◌++◌, Option, none, some,
  ◌>>=◌, ltb, if◌then◌else◌, is_empty, is_none,
}
use mesos_framework.Base.Text.{is_empty as is_empty_text}
use mesos_framework.Base.Dict
use mesos_framework.Flags.{Flags}
use mesos_framework.Proto.{
  DeviceType, starting, running, ServiceState, NodeState, SchedulerState, ProbeRequest, is_running,
  is_starting,
}
use mesos_framework.Mesos.{
  TaskStatus, task_lost, Offer, TaskInfo, Call, decline_offer, launch_tasks, reconcile_tasks,
  send_framework_message, ResourceOps,
}
use mesos_framework.Scheduler.Names.{
  prober_task, registry_task, metadata_task, data_task, api_task, s3_task, webconsole_task,
  client_task, executor_id_prefix, id_on,
}
use mesos_framework.Scheduler.Services.{Round, start_services, kill_services}
use mesos_framework.Scheduler.Policy.{do_start_service, kill_service_if_running}
use mesos_framework.Scheduler.State.{
  Scheduler, Service, registry, metadata, data_service, node_field, set_node_field, create_host,
  resources_for,
}
use mesos_framework.Scheduler.Task.{create_prober_task_info, create_client_task_info, make_task}

abbrev lost_on : String → String → TaskStatus
lost_on hostname service = record {
  task_id = id_on service hostname;
  slave_id = "";
  state = task_lost;
  message = "";
  labels = [];
}

module _ {ℓ} {R : Type ℓ} where
  unfoldable pub reconcile_host : Offer R → Scheduler R → Scheduler R × List (Call R)
  reconcile_host offer s = (
    create_host offer.hostname offer.slave_id s,
    reconcile_tasks (
          lost_on offer.hostname "quobyte-device-prober"
          ∷ lost_on offer.hostname "quobyte-registry"
          ∷ lost_on offer.hostname "quobyte-metadata"
          ∷ lost_on offer.hostname "quobyte-data"
          ∷ lost_on offer.hostname "quobyte-webconsole"
          ∷ lost_on offer.hostname "quobyte-api"
          ∷ lost_on offer.hostname "quobyte-s3"
          ∷ [])
        ∷ [],
  )

  -- `node_state` is a reference into the map: its last value is written back.
  abbrev pub put_node : String → NodeState → Scheduler R → Scheduler R
  put_node hostname node s = record s { nodes = Dict.modify hostname (λ _. node) s.nodes }

  -- The answer to the offer once the block is done.
  abbrev pub new_round : Offer R → NodeState → Scheduler R → Round R
  new_round offer node s = record {
    remaining = offer.resources;
    tasks = [];
    node = node;
    scheduler = s;
  }

  abbrev pub close_round : Offer R → Round R → Scheduler R × List (Call R)
  close_round offer r = (
    put_node offer.hostname r.node r.scheduler,
    (if is_empty r.tasks then decline_offer offer.id else launch_tasks offer.id r.tasks) ∷ [],
  )

module _ {ℓ} {R : Type ℓ} (flags : Flags) (ops : ResourceOps R) (persisted : SchedulerState) where
  -- With a version to deploy, services are started; with none, they are killed.
  unfoldable pub offer_to_services :
      Offer R → NodeState → Scheduler R → Option (Scheduler R × List (Call R))
  offer_to_services offer node s =
      if not (is_empty_text persisted.target_version)
      then (do
        r ← start_services flags ops persisted offer (new_round offer node s)
        some (close_round offer r))
      else some (s, kill_services offer node s ++ decline_offer offer.id ∷ [])

  module _ (encode_request : ProbeRequest → String) (now : ℕ) where
    unfoldable pub prober_is_due : NodeState → Bool
    prober_is_due node =
        ltb (flags.probe_executor_keepalive_interval_s + node.prober.last_seen_s) now
        && not (is_running node.prober.state)
        && not (is_starting node.prober.state)

    unfoldable pub launch_prober :
        Offer R → NodeState → Scheduler R → Option (Scheduler R × List (Call R))
    launch_prober offer node s = do
      info ← create_prober_task_info flags persisted.framework_id_value
      let task : TaskInfo R = record info {
        name = "quobyte-device-prober";
        task_id = id_on "quobyte-device-prober" offer.hostname;
        slave_id = offer.slave_id;
        resources = some (resources_for flags ops prober_task s);
      }
      some (
        put_node offer.hostname
            (record node { prober = record node.prober { state = starting; last_update_s = now } })
            s,
        launch_tasks offer.id (task ∷ []) ∷ [],
      )

    unfoldable pub probe_is_due : NodeState → Bool
    probe_is_due node =
        is_running node.prober.state && ltb (flags.probe_interval_s + node.last_probe_s) now

    unfoldable pub trigger_discovery :
        Offer R → NodeState → Scheduler R → Scheduler R × List (Call R)
    trigger_discovery offer node s =
        let request : ProbeRequest = record {
          client_directory = flags.client_mount_point;
          initialize_path = "";
        } in
        let (s', calls) =
          reconcile_host offer (put_node offer.hostname (record node { last_probe_s = now }) s) in
        (
          s',
          send_framework_message (append executor_id_prefix persisted.framework_id_value)
                  offer.slave_id (encode_request request)
                ∷ calls
              ++ decline_offer offer.id ∷ [],
        )

    -- An offer of a host that is known.
    unfoldable pub known_offer :
        Offer R → NodeState → Scheduler R → Option (Scheduler R × List (Call R))
    known_offer offer node s =
        if prober_is_due node
          && ops.contains offer.resources (resources_for flags ops prober_task s)
        then launch_prober offer node s
        else (if probe_is_due node
            then some (trigger_discovery offer node s)
            else offer_to_services offer node s)

    unfoldable pub handle_offer : Offer R → Scheduler R → Option (Scheduler R × List (Call R))
    handle_offer offer s =
        if not (is_empty_text flags.restrict_hosts)
          && is_none (find? flags.restrict_hosts offer.hostname)
        then some (s, decline_offer offer.id ∷ [])
        else elim (Dict.find offer.hostname s.nodes) [
          | none ↦
              let (s', calls) = reconcile_host offer s in
              some (s', calls ++ decline_offer offer.id ∷ [])
          | some node ↦
              let node' = record node { last_offer_s = now } in
              known_offer offer node' (put_node offer.hostname node' s)
        ]

  -- Each offer comes with the time at which it is handled.
  unfoldable pub resource_offers :
      (ProbeRequest → String)
      → List (ℕ × Offer R)
      → Scheduler R
      → Option (Scheduler R × List (Call R))
  resource_offers encode_request [] s = some (s, [])
  resource_offers encode_request ((now, offer) ∷ offers) s =
      handle_offer encode_request now offer s >>= λ (s', calls).
      resource_offers encode_request offers s' >>= λ (s'', more). some (s'', calls ++ more)
