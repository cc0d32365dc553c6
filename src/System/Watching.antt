-- ===== src/System/Watching.antt =====
-- The scheduler's process from the first offer of a host to the report of its prober.
use mathlib.Core.List.{append_assoc}
use mesos_framework.Base.{
  ℕ, ◌<◌, String, ◌≡◌, refl, sym, ◌∙◌, ap, true, List, [], ◌∷◌, ◌++◌, Option, none, some, arith,
  get_or,
}
use mesos_framework.Base.Text.{NoDash}
use mesos_framework.Base.Dict
use mesos_framework.Base.Dict.{Dict}
use mesos_framework.Flags.{Flags}
use mesos_framework.Proto.{starting, NodeState, ProbeRequest, ProbeResponse}
use mesos_framework.Mesos.{TaskInfo, TaskStatus, task_lost, Offer, Call, launch_tasks, ResourceOps}
use mesos_framework.Scheduler.Names.{prober_task, id_on}
use mesos_framework.Scheduler.State.{Scheduler, prober, registry, new_host}
use mesos_framework.Scheduler.Policy.{is_terminal}
use mesos_framework.Scheduler.Offers.{prober_is_due}
use mesos_framework.Scheduler.Offers.Cases.{offered}
use mesos_framework.Scheduler.Offers.Readiness.{IsReady}
use mesos_framework.Scheduler.Status.{is_up, seen_running, seen_terminal, status_update}
use mesos_framework.Scheduler.Progress.{At, update-At, judge-up, judge-terminal, free-owns}
use mesos_framework.Scheduler.Progress.Offers.{IsAllowed, fresh_offer, prober_offer}
use mesos_framework.Scheduler.Page.{DebugText}
use mesos_framework.Scheduler.Proxy.{StateOps, TextFormat}
use mesos_framework.Executor.{launch_task}
use mesos_framework.Probing.{prober_report, prober_should_run}
use mesos_framework.System.{System, Event, offers, update, run}
use mesos_framework.System.Sequences.{Runs, run-offer, run-update}

module _ {ℓ κ μ} {S : Type ℓ} {R : Type κ} {T : Type μ} (ops : StateOps S T) (format : TextFormat T)
    (flags : Flags) (resources : ResourceOps R) (encode_request : ProbeRequest → String)
    (decode_response : String → Option ProbeResponse) (debug : DebugText) where
  module _ (ready : IsReady flags) (hostname slave_id : String) (plain : NoDash hostname)
      (allowed : IsAllowed flags hostname) where
    abbrev pub offer_of : String → R → Offer R
    offer_of id units = record {
      id = id;
      hostname = hostname;
      slave_id = slave_id;
      resources = units;
    }

    -- The host once its registry is known not to run and its prober is seen.
    abbrev pub watched_host : ℕ → ℕ → ℕ → TaskStatus → NodeState
    watched_host t₂ t₃ t₄ lost = record (offered t₃ (new_host hostname slave_id)) {
      registry = seen_terminal t₂ lost (new_host hostname slave_id).registry;
      prober =
          seen_running t₄ (prober_report hostname slave_id)
            (record (new_host hostname slave_id).prober { state = starting; last_update_s = t₃ });
    }

    -- From a host that is not known to one whose prober is seen.
    pub prober_comes_up :
        (sys : System S R) (t₁ t₂ t₃ t₄ : ℕ) (id₁ id₃ : String) (units₁ units₃ : R)
        (lost : TaskStatus)
        → Dict.find hostname sys.scheduler.nodes ≡ none
        → lost.task_id ≡ id_on "quobyte-registry" hostname
        → lost.state ≡ task_lost
        → flags.probe_executor_keepalive_interval_s < t₃
        → resources.contains units₃
            (get_or resources.nothing (Dict.find prober_task sys.scheduler.resources))
          ≡ true
        → (s' : Scheduler R) × (made : List (Call R)) × (task : TaskInfo R) × (rest : List (Call R))
          × Runs ops format flags resources encode_request decode_response debug
              (offers ((t₁, offer_of id₁ units₁) ∷ [])
                ∷ update t₂ lost
                ∷ offers ((t₃, offer_of id₃ units₃) ∷ [])
                ∷ update t₄ (prober_report hostname slave_id)
                ∷ [])
              sys
              (record sys { scheduler = s' })
              (made ++ launch_tasks id₃ (task ∷ []) ∷ rest)
          × (task.task_id ≡ id_on "quobyte-device-prober" hostname)
          × At hostname (watched_host t₂ t₃ t₄ lost) sys.scheduler.resources s'
    unfolding is_up is_terminal launch_task prober_is_due run
    prober_comes_up sys t₁ t₂ t₃ t₄ id₁ id₃ units₁ units₃ lost missing named ended late fits =
        let persisted = sys.proxy.state in
        let table = sys.scheduler.resources in
        let n₁ = new_host hostname slave_id in
        let (s₁, calls₁, answered₁, at₁) =
          fresh_offer flags resources persisted encode_request t₁ (offer_of id₁ units₁) allowed
            sys.scheduler missing in
        let s₂ = status_update persisted t₂ lost s₁ in
        let n₂ = record n₁ { registry = seen_terminal t₂ lost n₁.registry } in
        let at₂ : At hostname n₂ table s₂.0 =
          update-At persisted t₂ lost s₁ registry hostname n₁ table _ refl named plain
            (judge-terminal R t₂ registry n₁ n₁.registry lost (rw ended refl) (rw ended refl)
              (free-owns n₁.registry lost.task_id refl))
            at₁ in
        let (s₃, task, answered₃, task_named, at₃) =
          prober_offer flags resources persisted encode_request t₃ (offer_of id₃ units₃) allowed
            s₂.0 n₂ table ready.image_named at₂ (ground arith) fits in
        let report = prober_report hostname slave_id in
        let s₄ = status_update persisted t₄ report s₃ in
        let n₃ = record (offered t₃ n₂) {
          prober = record n₂.prober { state = starting; last_update_s = t₃ };
        } in
        let at₄ : At hostname (watched_host t₂ t₃ t₄ lost) table s₄.0 =
          update-At persisted t₄ report s₃ prober hostname n₃ table _ refl refl plain
            (judge-up R t₄ prober n₃ n₃.prober report refl (prober_should_run n₃ n₃.prober _) refl)
            at₃ in
        let es₄ : List (Event R) = update t₄ report ∷ [] in
        let es₃ = offers ((t₃, offer_of id₃ units₃) ∷ []) ∷ es₄ in
        let es₂ = update t₂ lost ∷ es₃ in
        let y₁ = record sys { scheduler = s₁ } in
        let y₂ = record sys { scheduler = s₂.0 } in
        let y₃ = record sys { scheduler = s₃ } in
        let y₄ = record sys { scheduler = s₄.0 } in
        let launched : List (Call R) = launch_tasks id₃ (task ∷ []) ∷ [] in
        let last =
          run-update ops format flags resources encode_request decode_response debug t₄ report [] y₃
            y₄ [] refl in
        let later =
          run-offer ops format flags resources encode_request decode_response debug t₃
            (offer_of id₃ units₃) es₄ y₂ y₄ s₃ launched (s₄.1 ++ []) allowed answered₃ last in
        let more = (launched ++ []) ++ (s₄.1 ++ []) in
        let ran =
          run-offer ops format flags resources encode_request decode_response debug t₁
            (offer_of id₁ units₁) es₂ sys y₄ s₁ calls₁ (s₂.1 ++ more) allowed answered₁
            (run-update ops format flags resources encode_request decode_response debug t₂ lost es₃
              y₁ y₄ more later) in
        (
          s₄.0,
          (calls₁ ++ []) ++ s₂.1,
          task,
          s₄.1 ++ [],
          ran ∙ ap (λ cs. some (y₄, cs)) (sym (append_assoc (calls₁ ++ []) s₂.1 more)),
          task_named,
          at₄,
        )
