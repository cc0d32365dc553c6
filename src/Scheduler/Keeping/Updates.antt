-- ===== src/Scheduler/Keeping/Updates.antt =====
-- scheduler/scheduler.cpp: running services, through `statusUpdate` and `frameworkMessage`.
use mathlib.Core.Option
use mesos_framework.Base.{
  ℕ, ◌+◌, String, ◌≡◌, ◌≢◌, refl, ◌⊎◌, inl, inr, true, Option, none, some, arith, ◌==◌, eq_iff,
  Option-cases, Bool-cases, Ensures,
}
use mesos_framework.Base.Text.{rfind, substr, substr_from}
use mesos_framework.Base.Dict
use mesos_framework.Proto.{
  running, not_running, ServiceState, NodeState, SchedulerState, ProbeResponse,
}
use mesos_framework.Mesos.{TaskStatus}
use mesos_framework.Scheduler.Policy.{is_terminal}
use mesos_framework.Scheduler.State.{
  Scheduler, Service, api, s3, console, create_host, get_service, service_state, set_service_state,
  is_shared,
}
use mesos_framework.Scheduler.State.Fields.{
  state_of, state_of-set_other, state_of-set_elsewhere, state_of-set_self, state_of-create_host,
  find-create_host,
}
use mesos_framework.Scheduler.Status.{
  is_up, service_should_run, owns, judge_status, write_state, update_service, update_found,
  update_at, status_update,
}
use mesos_framework.Scheduler.Probe.{framework_message}
use mesos_framework.Scheduler.Probe.Responses.{answered, find-framework_message}
use mesos_framework.Scheduler.Keeping.{
  NodeKeeps, NodeKeeps-refl, HostKeeps, SchedulerKeeps, Keeps-refl,
}

-- A service that runs as a task on record goes on running as that task, or it is recorded as not
-- running, without a task.
abbrev pub KeepsOrEnds : ServiceState → ServiceState → Type 0
KeepsOrEnds v v' =
    v.state ≡ running
    → v.task_id ≢ ""
    → ((v'.state ≡ running) × (v'.task_id ≡ v.task_id))
      ⊎ ((v'.state ≡ not_running) × (v'.task_id ≡ ""))

pub KeepsOrEnds-refl : (v : ServiceState) → KeepsOrEnds v v
KeepsOrEnds-refl v r filled = inl (r, refl)

owned_task :
    (state : ServiceState) (task_id : String)
    → owns state task_id ≡ true
    → state.task_id ≢ ""
    → task_id ≡ state.task_id
owned_task state task_id owned filled =
    ground (arith, eq_iff task_id state.task_id, eq_iff state.task_id "")

Service-discrete : Discrete Service
Service-discrete = hlevel

module _ {ℓ} (R : Type ℓ) where
  judge_status-KeepsOrEnds :
      (now : ℕ) (service : Service) (node : NodeState) (state : ServiceState) (status : TaskStatus)
      → Ensures (KeepsOrEnds state) (judge_status {R = R} now service node state status).0
  unfolding judge_status
  judge_status-KeepsOrEnds now service node state status = elim (Bool-cases (is_up status.state)) [
    | inl up ↦ elim (Bool-cases (service_should_run service node state status.task_id)) [
      | inl wanted ↦ elim (Bool-cases (owns state status.task_id)) [
        | inl owned ↦
            rw (up, wanted, owned)
              (λ r filled. inl (refl, owned_task state status.task_id owned filled))
        | inr stale ↦ rw (up, wanted, stale) tt
      ]
      | inr unwanted ↦ rw (up, unwanted) tt
    ]
    | inr down ↦ elim (Bool-cases (is_terminal status.state)) [
      | inl ended ↦ elim (Bool-cases (owns state status.task_id)) [
        | inl owned ↦ rw (down, ended, owned) (λ r filled. inr (refl, refl))
        | inr stale ↦ rw (down, ended, stale) tt
      ]
      | inr lives ↦ rw (down, lives) tt
    ]
  ]

module _ {ℓ} {R : Type ℓ} where
  -- A service that all hosts share has one state.
  state_of-shared :
      (service : Service) (hostname host' : String) (s : Scheduler R)
      → is_shared service ≡ true
      → state_of service hostname s ≡ state_of service host' s
  state_of-shared api hostname host' s h = refl
  state_of-shared s3 hostname host' s h = refl
  state_of-shared console hostname host' s h = refl
  state_of-shared _ hostname host' s h = cc

  write_state-KeepsOrEnds :
      (service : Service) (hostname : String) (w : Option ServiceState) (s : Scheduler R)
      (node : NodeState) (other : Service) (host' : String)
      → Dict.find hostname s.nodes ≡ some node
      → Ensures (KeepsOrEnds (state_of service hostname s)) w
      → KeepsOrEnds
          (state_of other host' s)
          (state_of other host' (write_state service hostname w s))
  write_state-KeepsOrEnds service hostname none s node other host' found h =
      KeepsOrEnds-refl (state_of other host' s)
  write_state-KeepsOrEnds service hostname (some v) s node other host' found h =
      let written = set_service_state service hostname v s in
      let wrote = state_of-set_self service hostname v s node found in
      elim (Service-discrete service other) [
        | no apart ↦
            rw (state_of-set_other service other hostname host' v s apart)
              (KeepsOrEnds-refl (state_of other host' s))
        | yes same ↦ elim (Bool-cases (is_shared service)) [
          | inl shared ↦
              rw
                (
                  ← same,
                  state_of-shared service host' hostname s shared,
                  state_of-shared service host' hostname written shared,
                  wrote,
                )
                h
          | inr own ↦ elim (Bool-cases (hostname == host')) [
            | inl here ↦ rw (← same, ← (eq_iff hostname host').0 here, wrote) h
            | inr there ↦
                let apart : hostname ≢ host' = ground (arith, eq_iff hostname host') in
                rw (← same, state_of-set_elsewhere service service hostname host' v s apart own)
                  (KeepsOrEnds-refl (state_of service host' s))
          ]
        ]
      ]

  update_found-KeepsOrEnds :
      (persisted : SchedulerState) (now : ℕ) (status : TaskStatus) (hostname : String)
      (service : Option Service) (s : Scheduler R) (node : NodeState) (other : Service)
      (host' : String)
      → Dict.find hostname s.nodes ≡ some node
      → KeepsOrEnds
          (state_of other host' s)
          (state_of other host' (update_found persisted now status hostname service s).0)
  unfolding update_found update_service
  update_found-KeepsOrEnds persisted now status hostname none s node other host' found =
      KeepsOrEnds-refl (state_of other host' s)
  update_found-KeepsOrEnds persisted now status hostname (some service) s node other host' found =
      let seen = service_state service node s in
      let here : state_of service hostname s ≡ seen = rw found refl in
      let judged = judge_status-KeepsOrEnds R now service node seen status in
      rw found (
        write_state-KeepsOrEnds service hostname
          (judge_status {R = R} now service node seen status).0 s node other host' found
          (rw here judged))

  update_at-KeepsOrEnds :
      (persisted : SchedulerState) (now : ℕ) (status : TaskStatus) (cut : Option ℕ)
      (s : Scheduler R) (other : Service) (host' : String)
      → KeepsOrEnds
          (state_of other host' s)
          (state_of other host' (update_at persisted now status cut s).0)
  unfolding update_at
  update_at-KeepsOrEnds persisted now status none s other host' =
      KeepsOrEnds-refl (state_of other host' s)
  update_at-KeepsOrEnds persisted now status (some p) s other host' =
      let hostname = substr_from status.task_id (p + 1) in
      let service = get_service (substr status.task_id 0 p) in
      let created = create_host hostname status.slave_id s in
      rw (← state_of-create_host other host' hostname status.slave_id s) (
        update_found-KeepsOrEnds persisted now status hostname service created _ other host'
          (find-create_host hostname status.slave_id s))

  pub status_update-KeepsOrEnds :
      (persisted : SchedulerState) (now : ℕ) (status : TaskStatus) (s : Scheduler R)
      (other : Service) (host' : String)
      → KeepsOrEnds
          (state_of other host' s)
          (state_of other host' (status_update persisted now status s).0)
  unfolding status_update
  status_update-KeepsOrEnds persisted now status s other host' =
      update_at-KeepsOrEnds persisted now status (rfind status.task_id) s other host'

module _ (decode : String → Option ProbeResponse) (now : ℕ) (slave_id payload : String) where
  answered-NodeKeeps : (n : NodeState) → NodeKeeps n (answered decode now slave_id payload n)
  answered-NodeKeeps n = elim (Bool-cases (n.slave_id_value == slave_id)) [
    | inr other ↦ rw other (NodeKeeps-refl n)
    | inl same ↦ elim (Option-cases (decode payload)) [
      | inl bad ↦ rw (same, bad) (NodeKeeps-refl n)
      | inr (response, good) ↦ rw (same, good) (NodeKeeps-refl n)
    ]
  ]

  pub framework_message-SchedulerKeeps {ℓ} :
      {R : Type ℓ} (s : Scheduler R)
      → SchedulerKeeps s (framework_message decode now slave_id payload s)
  unfolding framework_message
  framework_message-SchedulerKeeps s = (
    Keeps-refl s.api_state,
    Keeps-refl s.console_state,
    Keeps-refl s.s3_state,
    λ hostname.
        rw (find-framework_message decode now slave_id payload hostname s)
          (go (Dict.find hostname s.nodes)),
  )
    where
      go :
          (o : Option NodeState) → HostKeeps o (Option.map (answered decode now slave_id payload) o)
      go none = tt
      go (some n) = answered-NodeKeeps n
