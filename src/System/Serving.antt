-- ===== src/System/Serving.antt =====
-- The scheduler's process from the report of a prober to the report of a registry.
use mesos_framework.Base.{
  ℕ, ◌+◌, ◌<◌, ◌≤◌, String, ◌≡◌, ◌≢◌, refl, ◌∙◌, true, List, [], ◌∷◌, ◌++◌, Option, some, arith,
  get_or,
}
use mesos_framework.Base.Text.{NoDash}
use mesos_framework.Base.Dict
use mesos_framework.Base.Dict.{Dict}
use mesos_framework.Flags.{Flags}
use mesos_framework.Proto.{DeviceType, running, not_running, NodeState, ProbeRequest, ProbeResponse}
use mesos_framework.Mesos.{
  TaskInfo, TaskStatus, task_running, Offer, Call, launch_tasks, ResourceOps,
}
use mesos_framework.Scheduler.Names.{registry_task, id_on}
use mesos_framework.Scheduler.State.{Scheduler, registry}
use mesos_framework.Scheduler.State.Fields.{state_of}
use mesos_framework.Scheduler.Policy.{core_services_running, should_service_be_started}
use mesos_framework.Scheduler.Offers.{prober_is_due, probe_is_due, handle_offer, put_node}
use mesos_framework.Scheduler.Offers.Cases.{offered}
use mesos_framework.Scheduler.Offers.Readiness.{IsReady}
use mesos_framework.Scheduler.Status.{is_up, service_should_run, seen_running, status_update}
use mesos_framework.Scheduler.Probe.{with_response, framework_message}
use mesos_framework.Scheduler.Progress.{At, update-At, message-At, judge-up, put_node-At}
use mesos_framework.Scheduler.Progress.Offers.{IsAllowed, probe_offer, service_offer}
use mesos_framework.Scheduler.Progress.Starts.{AwaitsRegistry, services-AwaitsRegistry}
use mesos_framework.Scheduler.Page.{DebugText}
use mesos_framework.Scheduler.Proxy.{StateOps, TextFormat}
use mesos_framework.System.{System, Event, offers, update, message, run}
use mesos_framework.System.Sequences.{Runs, run-offer, run-update, run-message}
use mesos_framework.System.Watching.{offer_of}

module _ {ℓ κ μ} {S : Type ℓ} {R : Type κ} {T : Type μ} (ops : StateOps S T) (format : TextFormat T)
    (flags : Flags) (resources : ResourceOps R) (encode_request : ProbeRequest → String)
    (decode_response : String → Option ProbeResponse) (debug : DebugText) where
  module _ (ready : IsReady flags) (hostname slave_id : String) (plain : NoDash hostname)
      (allowed : IsAllowed flags hostname) where
    abbrev offer_at : String → R → Offer R
    offer_at =
        offer_of ops format flags resources encode_request decode_response debug ready hostname
          slave_id plain allowed

    -- The host is known, its prober runs, and no core service does; its registry can be started.
    pub record IsWatched (n : NodeState) : Type 0 where
      pub on_slave : n.slave_id_value ≡ slave_id
      pub watched : n.prober.state ≡ running
      pub idle : core_services_running n ≡ 0
      pub stopped : n.registry.state ≡ not_running
      pub free : n.registry.task_id ≡ ""

    pub registry_comes_up :
        (sys : System S R) (n : NodeState) (table : Dict R) (t₅ t₆ t₇ t₈ : ℕ) (id₅ id₇ : String)
        (units₅ units₇ : R) (payload : String) (response : ProbeResponse) (up : TaskStatus)
        → At hostname n table sys.scheduler
        → IsWatched n
        → sys.proxy.state.target_version ≢ ""
        → flags.probe_interval_s + n.last_probe_s < t₅
        → t₇ ≤ flags.probe_interval_s + t₅
        → decode_response payload ≡ some response
        → response.device_type ≡ DeviceType.registry ∷ []
        → resources.contains units₇ (get_or resources.nothing (Dict.find registry_task table))
          ≡ true
        → up.task_id ≡ id_on "quobyte-registry" hostname
        → up.state ≡ task_running
        → (s' : Scheduler R) × (made : List (Call R)) × (task : TaskInfo R) × (rest : List (Call R))
          × Runs ops format flags resources encode_request decode_response debug
              (offers ((t₅, offer_at id₅ units₅) ∷ [])
                ∷ message t₆ slave_id payload
                ∷ offers ((t₇, offer_at id₇ units₇) ∷ [])
                ∷ update t₈ up
                ∷ [])
              sys
              (record sys { scheduler = s' })
              (made ++ launch_tasks id₇ (task ∷ []) ∷ rest)
          × (task.task_id ≡ id_on "quobyte-registry" hostname)
          × ((state_of registry hostname s').state ≡ running)
    unfolding is_up service_should_run prober_is_due probe_is_due run should_service_be_started
    registry_comes_up sys n table t₅ t₆ t₇ t₈ id₅ id₇ units₅ units₇ payload response up at
          ready_host wanted due soon read devices fits named started =
        let persisted = sys.proxy.state in
        let (s₅, calls₅, answered₅, at₅) =
          probe_offer flags resources persisted encode_request t₅ (offer_at id₅ units₅) allowed
            sys.scheduler n table at (ground (arith, ready_host.watched))
            (ground (arith, ready_host.watched)) in
        let n₅ = record (offered t₅ n) { last_probe_s = t₅ } in
        let s₆ = framework_message decode_response t₆ slave_id payload s₅ in
        let n₆ = with_response t₆ response n₅ in
        let at₆ : At hostname n₆ table s₆ =
          message-At decode_response t₆ slave_id payload s₅ hostname n₅ table response
            ready_host.on_slave read at₅ in
        let n₇ = offered t₇ n₆ in
        let s₆' = put_node hostname n₇ s₆ in
        let awaits : AwaitsRegistry n₇ = record {
          valid = refl;
          devices = devices;
          cores = ready_host.idle;
          stopped = rw ready_host.stopped refl;
        } in
        let (s₇, task, answered₇, task_named, at₇) =
          services-AwaitsRegistry flags ready resources persisted (offer_at id₇ units₇) s₆' n₇ table
            wanted awaits (put_node-At hostname n₆ n₇ table s₆ at₆) fits in
        let goes : handle_offer flags resources persisted encode_request t₇ (offer_at id₇ units₇) s₆
            ≡ some (s₇, launch_tasks id₇ (task ∷ []) ∷ []) =
          service_offer flags resources persisted encode_request t₇ (offer_at id₇ units₇) allowed s₆
            n₆ at₆.0 (ground (arith, ready_host.watched)) (ground (arith, ready_host.watched))
          ∙ answered₇ in
        let s₈ = status_update persisted t₈ up s₇ in
        let n₈ = record n₇ { registry = seen_running t₈ up n₇.registry } in
        let at₈ : At hostname n₈ table s₈.0 =
          update-At persisted t₈ up s₇ registry hostname n₇ table _ refl named plain
            (judge-up R t₈ registry n₇ n₇.registry up (rw started refl) (rw devices refl)
              ready_host.free)
            at₇ in
        let es₈ : List (Event R) = update t₈ up ∷ [] in
        let es₇ = offers ((t₇, offer_at id₇ units₇) ∷ []) ∷ es₈ in
        let es₆ = message t₆ slave_id payload ∷ es₇ in
        let y₅ = record sys { scheduler = s₅ } in
        let y₆ = record sys { scheduler = s₆ } in
        let y₇ = record sys { scheduler = s₇ } in
        let y₈ = record sys { scheduler = s₈.0 } in
        let launched : List (Call R) = launch_tasks id₇ (task ∷ []) ∷ [] in
        let last =
          run-update ops format flags resources encode_request decode_response debug t₈ up [] y₇ y₈
            [] refl in
        let later =
          run-offer ops format flags resources encode_request decode_response debug t₇
            (offer_at id₇ units₇) es₈ y₆ y₈ s₇ launched (s₈.1 ++ []) allowed goes last in
        let more = (launched ++ []) ++ (s₈.1 ++ []) in
        let ran =
          run-offer ops format flags resources encode_request decode_response debug t₅
            (offer_at id₅ units₅) es₆ sys y₈ s₅ calls₅ more allowed answered₅
            (run-message ops format flags resources encode_request decode_response debug t₆ slave_id
              payload es₇ y₅ y₈ more later) in
        (s₈.0, calls₅ ++ [], task, s₈.1 ++ [], ran, task_named, rw at₈.0 refl)
