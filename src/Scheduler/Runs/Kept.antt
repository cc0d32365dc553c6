-- ===== src/Scheduler/Runs/Kept.antt =====
-- scheduler/scheduler.cpp: what one call of a handler does to the services that run, in the states
-- that the scheduler can be in.
use mesos_framework.Base.{String, ◌≡◌, ◌⊎◌, inl, subst, Option, none, some, get_or, Ensures}
use mesos_framework.Base.Dict
use mesos_framework.Flags.{Flags}
use mesos_framework.Proto.{running, not_running, NodeState, ProbeRequest, ProbeResponse}
use mesos_framework.Mesos.{ResourceOps}
use mesos_framework.Scheduler.State.{
  Scheduler, Service, new_host, prober, registry, metadata, data_service, client, api, s3, console,
  service_state,
}
use mesos_framework.Scheduler.State.Fields.{state_of}
use mesos_framework.Scheduler.Keeping.{Keeps, HostKeeps, SchedulerKeeps}
use mesos_framework.Scheduler.Keeping.Offers.{resource_offers-Leaves}
use mesos_framework.Scheduler.Keeping.Updates.{
  KeepsOrEnds, status_update-KeepsOrEnds, framework_message-SchedulerKeeps,
}
use mesos_framework.Scheduler.Runs.{Step, offers, update, message, Reachable}
use mesos_framework.Scheduler.Runs.Tracked.{Reachable-IsTracked}

module _ {ℓ} {R : Type ℓ} where
  node_field-Keeps :
      (service : Service) (hostname : String) (s s' : Scheduler R) (o o' : Option NodeState)
      → SchedulerKeeps s s'
      → HostKeeps o o'
      → Keeps
          (service_state service (get_or (new_host hostname "") o) s)
          (service_state service (get_or (new_host hostname "") o') s')
  node_field-Keeps api hostname s s' o o' h k = h.0
  node_field-Keeps console hostname s s' o o' h k = h.1
  node_field-Keeps s3 hostname s s' o o' h k = h.2
  node_field-Keeps prober hostname s s' none o' h k = λ up. cc
  node_field-Keeps registry hostname s s' none o' h k = λ up. cc
  node_field-Keeps metadata hostname s s' none o' h k = λ up. cc
  node_field-Keeps data_service hostname s s' none o' h k = λ up. cc
  node_field-Keeps client hostname s s' none o' h k = λ up. cc
  node_field-Keeps prober hostname s s' (some n) (some n') h k = k.0
  node_field-Keeps registry hostname s s' (some n) (some n') h k = k.1
  node_field-Keeps metadata hostname s s' (some n) (some n') h k = k.2
  node_field-Keeps data_service hostname s s' (some n) (some n') h k = k.3
  node_field-Keeps client hostname s s' (some n) (some n') h k = k.4
  node_field-Keeps _ hostname s s' (some n) none h k = absurd k

  SchedulerKeeps-KeepsOrEnds :
      (service : Service) (hostname : String) (s s' : Scheduler R)
      → SchedulerKeeps s s'
      → KeepsOrEnds (state_of service hostname s) (state_of service hostname s')
  SchedulerKeeps-KeepsOrEnds service hostname s s' h up filled = inl (
      node_field-Keeps service hostname s s' (Dict.find hostname s.nodes)
        (Dict.find hostname s'.nodes) h (h.3 hostname) up)

module _ {ℓ} {R : Type ℓ} (flags : Flags) (ops : ResourceOps R)
    (encode_request : ProbeRequest → String) (decode_response : String → Option ProbeResponse) where
  Step-KeepsOrEnds :
      (service : Service) (hostname : String) (s s' : Scheduler R)
      → Step flags ops encode_request decode_response s s'
      → KeepsOrEnds (state_of service hostname s) (state_of service hostname s')
  Step-KeepsOrEnds service hostname s s' (offers persisted os calls e) =
      SchedulerKeeps-KeepsOrEnds service hostname s s' (
        subst (Ensures (λ r. SchedulerKeeps s r.0)) e
          (resource_offers-Leaves flags ops persisted encode_request os s))
  Step-KeepsOrEnds service hostname s s' (update persisted now status e) =
      rw (← e) (status_update-KeepsOrEnds persisted now status s service hostname)
  Step-KeepsOrEnds service hostname s s' (message now slave_id payload e) = rw (← e) (
      SchedulerKeeps-KeepsOrEnds service hostname s _
        (framework_message-SchedulerKeeps decode_response now slave_id payload s))

  -- In every state that the scheduler can be in, and whatever call of a handler comes next: a
  -- service that is recorded as running stays recorded as running as the same task, or it is
  -- recorded as not running and without a task. No call makes another task of it.
  pub Step-running :
      (s s' : Scheduler R) (service : Service) (hostname : String)
      → Reachable flags ops encode_request decode_response s
      → Step flags ops encode_request decode_response s s'
      → (state_of service hostname s).state ≡ running
      → (((state_of service hostname s').state ≡ running)
          × ((state_of service hostname s').task_id ≡ (state_of service hostname s).task_id))
        ⊎ (((state_of service hostname s').state ≡ not_running)
            × ((state_of service hostname s').task_id ≡ ""))
  Step-running s s' service hostname run step up =
      Step-KeepsOrEnds service hostname s s' step up
        (Reachable-IsTracked flags ops encode_request decode_response s service hostname run up)
