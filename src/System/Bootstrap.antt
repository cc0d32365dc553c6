-- ===== src/System/Bootstrap.antt =====
-- The scheduler's process from the first offer of a host to the report of its registry.
use mathlib.Core.List.{append_assoc}
use mesos_framework.Base.{
  ℕ, ◌+◌, ◌<◌, ◌≤◌, String, ◌≡◌, ◌≢◌, refl, ◌∙◌, ap, true, List, [], ◌∷◌, ◌++◌, Option, none, some,
  arith, get_or,
}
use mesos_framework.Base.Text.{NoDash}
use mesos_framework.Base.Dict
use mesos_framework.Base.Dict.{Dict}
use mesos_framework.Flags.{Flags}
use mesos_framework.Proto.{DeviceType, running, ProbeRequest, ProbeResponse}
use mesos_framework.Mesos.{
  TaskInfo, TaskStatus, task_lost, task_running, Offer, Call, launch_tasks, ResourceOps,
}
use mesos_framework.Scheduler.Names.{prober_task, registry_task, id_on}
use mesos_framework.Scheduler.State.{Scheduler, registry}
use mesos_framework.Scheduler.State.Fields.{state_of}
use mesos_framework.Scheduler.Offers.Readiness.{IsReady}
use mesos_framework.Scheduler.Progress.Offers.{IsAllowed}
use mesos_framework.Scheduler.Page.{DebugText}
use mesos_framework.Scheduler.Proxy.{StateOps, TextFormat}
use mesos_framework.Probing.{prober_report}
use mesos_framework.System.{System, Event, offers, update, message, run}
use mesos_framework.System.Sequences.{run-append}
use mesos_framework.System.Serving.{IsWatched, registry_comes_up}
use mesos_framework.System.Watching.{offer_of, watched_host, prober_comes_up}

regroup {ℓ} :
    {A : Type ℓ} (xs : List A) (x : A) (ys zs ws : List A)
    → (xs ++ x ∷ ys) ++ (zs ++ ws) ≡ (xs ++ x ∷ (ys ++ zs)) ++ ws
regroup xs x ys zs ws = simp append_assoc

module _ {ℓ κ μ} {S : Type ℓ} {R : Type κ} {T : Type μ} (ops : StateOps S T) (format : TextFormat T)
    (flags : Flags) (resources : ResourceOps R) (encode_request : ProbeRequest → String)
    (decode_response : String → Option ProbeResponse) (debug : DebugText) where
  module _ (ready : IsReady flags) (hostname slave_id : String) (plain : NoDash hostname)
      (allowed : IsAllowed flags hostname) where
    abbrev offer_at : String → R → Offer R
    offer_at =
        offer_of ops format flags resources encode_request decode_response debug ready hostname
          slave_id plain allowed

    -- The events of a host that is new, up to the report of its registry.
    abbrev pub bootstrap :
        (t₁ t₂ t₃ t₄ t₅ t₆ t₇ t₈ : ℕ) (id₁ id₃ id₅ id₇ : String) (units₁ units₃ units₅ units₇ : R)
        (lost up : TaskStatus) (payload : String)
        → List (Event R)
    bootstrap t₁ t₂ t₃ t₄ t₅ t₆ t₇ t₈ id₁ id₃ id₅ id₇ units₁ units₃ units₅ units₇ lost up payload =
        offers ((t₁, offer_at id₁ units₁) ∷ [])
        ∷ update t₂ lost
        ∷ offers ((t₃, offer_at id₃ units₃) ∷ [])
        ∷ update t₄ (prober_report hostname slave_id)
        ∷ offers ((t₅, offer_at id₅ units₅) ∷ [])
        ∷ message t₆ slave_id payload
        ∷ offers ((t₇, offer_at id₇ units₇) ∷ [])
        ∷ update t₈ up
        ∷ []

    -- With a version to deploy, flags that accept the host, that name a registry and an image for
    -- the prober and whose memory sizes fit an `int`: a host that is not known and whose name has no
    -- dash gets a registry. Offers of the host alternate with the answers: the registry's task is
    -- lost, the prober reports, it has found one device, for a registry, and the registry's task
    -- runs. Where the second offer is later than the prober's keepalive interval, the third later
    -- than the probe interval and the fourth not later than that interval after the third, and where
    -- the second and the fourth hold the resources of the prober and of the registry, no event
    -- aborts, the prober is launched on the second offer and the registry on the fourth, alone and
    -- under their ids, and the registry is recorded as running afterwards.
    pub new_host-registry :
        (sys : System S R) (t₁ t₂ t₃ t₄ t₅ t₆ t₇ t₈ : ℕ) (id₁ id₃ id₅ id₇ : String)
        (units₁ units₃ units₅ units₇ : R) (lost up : TaskStatus) (payload : String)
        (response : ProbeResponse)
        → Dict.find hostname sys.scheduler.nodes ≡ none
        → sys.proxy.state.target_version ≢ ""
        → (lost.task_id ≡ id_on "quobyte-registry" hostname) × (lost.state ≡ task_lost)
        → flags.probe_executor_keepalive_interval_s < t₃
        → resources.contains units₃
            (get_or resources.nothing (Dict.find prober_task sys.scheduler.resources))
          ≡ true
        → flags.probe_interval_s < t₅
        → t₇ ≤ flags.probe_interval_s + t₅
        → decode_response payload ≡ some response
        → response.device_type ≡ DeviceType.registry ∷ []
        → resources.contains units₇
            (get_or resources.nothing (Dict.find registry_task sys.scheduler.resources))
          ≡ true
        → (up.task_id ≡ id_on "quobyte-registry" hostname) × (up.state ≡ task_running)
        → (s' : Scheduler R) × (watcher service : TaskInfo R) × (made probed rest : List (Call R))
          × (run ops format flags resources encode_request decode_response debug
                (bootstrap t₁ t₂ t₃ t₄ t₅ t₆ t₇ t₈ id₁ id₃ id₅ id₇ units₁ units₃ units₅ units₇ lost
                  up payload)
                sys
              ≡ some (
                record sys { scheduler = s' },
                (made ++ launch_tasks id₃ (watcher ∷ []) ∷ probed)
                    ++ launch_tasks id₇ (service ∷ []) ∷ rest,
              ))
          × (watcher.task_id ≡ id_on "quobyte-device-prober" hostname)
          × (service.task_id ≡ id_on "quobyte-registry" hostname)
          × ((state_of registry hostname s').state ≡ running)
    new_host-registry sys t₁ t₂ t₃ t₄ t₅ t₆ t₇ t₈ id₁ id₃ id₅ id₇ units₁ units₃ units₅ units₇ lost
          up payload response missing wanted ended late fits due soon read devices fits' started =
        let table = sys.scheduler.resources in
        let (s, made, watcher, rest, ran, watcher_named, at) =
          prober_comes_up ops format flags resources encode_request decode_response debug ready
            hostname slave_id plain allowed sys t₁ t₂ t₃ t₄ id₁ id₃ units₁ units₃ lost missing
            ended.0 ended.1 late fits in
        let n =
          watched_host ops format flags resources encode_request decode_response debug ready
            hostname slave_id plain allowed t₂ t₃ t₄ lost in
        let watched : IsWatched ops format flags resources encode_request decode_response debug
            ready hostname slave_id plain allowed n =
          record { on_slave = refl; watched = refl; idle = refl; stopped = refl; free = refl } in
        let y = record sys { scheduler = s } in
        let (s', probed, service, last, ran', service_named, runs) =
          registry_comes_up ops format flags resources encode_request decode_response debug ready
            hostname slave_id plain allowed y n table t₅ t₆ t₇ t₈ id₅ id₇ units₅ units₇ payload
            response up at watched wanted (omega arith) soon read devices fits' started.0
            started.1 in
        let launched = launch_tasks id₃ (watcher ∷ []) in
        let after = launch_tasks id₇ (service ∷ []) ∷ last in
        (
          s',
          watcher,
          service,
          made,
          rest ++ probed,
          last,
          run-append ops format flags resources encode_request decode_response debug _ _ sys y
                (record sys { scheduler = s' }) (made ++ launched ∷ rest) (probed ++ after) ran ran'
              ∙ ap (λ cs. some (record sys { scheduler = s' }, cs))
                  (regroup made launched rest probed after),
          watcher_named,
          service_named,
          runs,
        )
