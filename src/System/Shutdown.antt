-- ===== src/System/Shutdown.antt =====
-- The scheduler's process from the request to shut down to the end of a service.
use mathlib.Core.List.{Memᴰ}
use mesos_framework.Base.{
  ℕ, ◌+◌, ◌≤◌, String, ◌≡◌, refl, sym, ◌∙◌, ap, true, false, List, [], ◌∷◌, ◌++◌, Option, some,
  arith, eq_iff,
}
use mesos_framework.Base.Text.{NoDash}
use mesos_framework.Base.Dict
use mesos_framework.Flags.{Flags}
use mesos_framework.Proto.{
  running, not_running, ServiceState, NodeState, SchedulerState, ProbeRequest, ProbeResponse,
}
use mesos_framework.Mesos.{
  TaskStatus, task_killed, Offer, Call, decline_offer, kill_task, ResourceOps,
}
use mesos_framework.Scheduler.Names.{id_on}
use mesos_framework.Scheduler.Policy.{is_terminal}
use mesos_framework.Scheduler.State.{
  Scheduler, Service, prober, registry, metadata, data_service, client, is_shared, node_field,
  set_node_field, service_state,
}
use mesos_framework.Scheduler.State.Fields.{task_name, state_of}
use mesos_framework.Scheduler.Services.{kill_services}
use mesos_framework.Scheduler.Services.Killing.{is_stopped, kill_services-Memᴰ, Memᴰ-left}
use mesos_framework.Scheduler.Offers.{
  put_node, prober_is_due, probe_is_due, offer_to_services, handle_offer,
}
use mesos_framework.Scheduler.Offers.Cases.{offered}
use mesos_framework.Scheduler.Status.{is_up, owns, seen_terminal, status_update}
use mesos_framework.Scheduler.Progress.{
  At, put_node-At, update-At, judge-terminal, service_state-own,
}
use mesos_framework.Scheduler.Progress.Offers.{IsAllowed, service_offer}
use mesos_framework.Scheduler.Page.{DebugText}
use mesos_framework.Scheduler.Proxy.{StateOps, IsStorage, TextFormat, IsFaithful}
use mesos_framework.Scheduler.Http.{Archive, is_version_path}
use mesos_framework.Scheduler.Http.Versions.{handle_http_version}
use mesos_framework.System.{System, offers, update, request, handle, run}
use mesos_framework.System.Sequences.{run-∷, run-offer, run-update}

node_field-set_node_field :
    (service : Service) (v : ServiceState) (n : NodeState)
    → is_shared service ≡ false
    → node_field service (set_node_field service v n) ≡ v
node_field-set_node_field prober v n own = refl
node_field-set_node_field registry v n own = refl
node_field-set_node_field metadata v n own = refl
node_field-set_node_field data_service v n own = refl
node_field-set_node_field client v n own = refl
node_field-set_node_field _ v n own = cc

node_field-offered :
    (service : Service) (now : ℕ) (n : NodeState)
    → node_field service (offered now n) ≡ node_field service n
node_field-offered prober now n = refl
node_field-offered _ now n = refl

task_owns :
    (state : ServiceState) (task_id : String) → task_id ≡ state.task_id → owns state task_id ≡ true
task_owns state task_id same = ground (arith, eq_iff task_id state.task_id)

module _ {ℓ κ μ} {S : Type ℓ} {R : Type κ} {T : Type μ} (ops : StateOps S T) (format : TextFormat T)
    (storage : IsStorage ops) (faithful : IsFaithful format) (flags : Flags)
    (resources : ResourceOps R) (encode_request : ProbeRequest → String)
    (decode_response : String → Option ProbeResponse) (debug : DebugText) where
  -- An offer where there is no version to deploy and neither the prober nor a probe is due.
  shutdown_offer :
      (persisted : SchedulerState) (now : ℕ) (offer : Offer R) (s : Scheduler R) (n : NodeState)
      → IsAllowed flags offer.hostname
      → Dict.find offer.hostname s.nodes ≡ some n
      → persisted.target_version ≡ ""
      → n.prober.state ≡ running
      → now ≤ flags.probe_interval_s + n.last_probe_s
      → handle_offer flags resources persisted encode_request now offer s
        ≡ some (
          put_node offer.hostname (offered now n) s,
          kill_services offer (offered now n) (put_node offer.hostname (offered now n) s)
              ++ decline_offer offer.id ∷ [],
        )
  unfolding prober_is_due probe_is_due offer_to_services
  shutdown_offer persisted now offer s n allowed known empty watched soon =
      service_offer flags resources persisted encode_request now offer allowed s n known
        (ground (arith, watched)) (ground (arith, watched))
      ∙ rw empty refl

  -- With a storage that keeps what is stored and a text format that reads what it prints: where the
  -- empty version is posted, and an offer comes of a known host that the flags accept, whose name
  -- has no dash, whose prober runs and which needs no probe yet, then a registry, metadata or data
  -- service that is recorded as running on it, as the task of its id, is killed, and once that task
  -- is reported as killed, the service is recorded as not running. No event aborts, and no version
  -- is to be deployed afterwards.
  pub shutdown-stops :
      (sys : System S R) (archive : Archive) (url id : String) (units : R)
      (hostname slave_id : String) (t₁ t₂ : ℕ) (n : NodeState) (service : Service)
      (ended : TaskStatus)
      → is_version_path url ≡ true
      → IsAllowed flags hostname
      → NoDash hostname
      → Dict.find hostname sys.scheduler.nodes ≡ some n
      → n.prober.state ≡ running
      → t₁ ≤ flags.probe_interval_s + n.last_probe_s
      → is_stopped service ≡ true
      → is_shared service ≡ false
      → (node_field service n).state ≡ running
      → (node_field service n).task_id ≡ id_on (task_name service) hostname
      → ended.task_id ≡ id_on (task_name service) hostname
      → ended.state ≡ task_killed
      → (sys' : System S R) × (calls : List (Call R)) × (run ops format flags resources
            encode_request decode_response debug
            (request archive "POST" url ""
              ∷ offers (
                  (
                    t₁,
                    record { id = id; hostname = hostname; slave_id = slave_id; resources = units },
                  )
                  ∷ [])
              ∷ update t₂ ended
              ∷ [])
            sys
          ≡ some (sys', calls))
        × (sys'.proxy.state.target_version ≡ "")
        × Memᴰ (kill_task (id_on (task_name service) hostname)) calls
        × ((state_of service hostname sys'.scheduler).state ≡ not_running)
  unfolding run handle is_up is_terminal
  shutdown-stops sys archive url id units hostname slave_id t₁ t₂ n service ended versions allowed
        plain known watched soon stopped own up tracked named killed =
      let offer : Offer R = record {
        id = id;
        hostname = hostname;
        slave_id = slave_id;
        resources = units;
      } in
      let s = sys.scheduler in
      let (proxy, posted, state, later) =
        handle_http_version ops format debug archive s storage faithful url "" "" sys.proxy
          versions in
      let y₀ = record sys { proxy = proxy } in
      let empty : proxy.state.target_version ≡ "" = ap (λ d. d.target_version) state in
      let n₁ = offered t₁ n in
      let s₁ = put_node hostname n₁ s in
      let y₁ = record y₀ { scheduler = s₁ } in
      let at₁ = put_node-At hostname n n₁ s.resources s (known, refl) in
      let same = node_field-offered service t₁ n in
      let kills = kill_services offer n₁ s₁ in
      let r₂ = status_update proxy.state t₂ ended s₁ in
      let y₂ = record y₀ { scheduler = r₂.0 } in
      let v = seen_terminal t₂ ended (node_field service n₁) in
      let n₂ = set_node_field service v n₁ in
      let at₂ : At hostname n₂ s.resources r₂.0 =
        update-At proxy.state t₂ ended s₁ service hostname n₁ s.resources v own named plain
          (judge-terminal R t₂ service n₁ (node_field service n₁) ended (rw killed refl)
            (rw killed refl)
            (task_owns (node_field service n₁) ended.task_id
              (named ∙ sym (ap (λ w. w.task_id) same ∙ tracked))))
          at₁ in
      let here : state_of service hostname r₂.0 ≡ service_state service n₂ r₂.0 = rw at₂.0 refl in
      let last =
        run-update ops format flags resources encode_request decode_response debug t₂ ended [] y₁ y₂
          [] refl in
      let ran =
        run-offer ops format flags resources encode_request decode_response debug t₁ offer
          (update t₂ ended ∷ []) y₀ y₂ s₁ (kills ++ decline_offer id ∷ []) (r₂.1 ++ []) allowed
          (shutdown_offer proxy.state t₁ offer s n allowed known empty watched soon) last in
      let calls = ((kills ++ decline_offer id ∷ []) ++ []) ++ (r₂.1 ++ []) in
      (
        y₂,
        calls,
        run-∷ ops format flags resources encode_request decode_response debug
            (request archive "POST" url "") (offers ((t₁, offer) ∷ []) ∷ update t₂ ended ∷ []) sys
            y₀ y₂ [] calls (some "") (rw posted refl) ran,
        empty,
        Memᴰ-left ((kills ++ decline_offer id ∷ []) ++ []) (r₂.1 ++ []) (
            Memᴰ-left (kills ++ decline_offer id ∷ []) [] (
              Memᴰ-left kills (decline_offer id ∷ []) (
                kill_services-Memᴰ offer n₁ s₁ service stopped
                  (ap (λ w. w.state) (service_state-own service n₁ s₁ own ∙ same) ∙ up)))),
        ap (λ w. w.state)
            (here
              ∙ service_state-own service n₂ r₂.0 own
              ∙ node_field-set_node_field service v n₁ own),
      )
