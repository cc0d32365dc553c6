-- ===== src/Scheduler/Runs/Tracked.antt =====
-- scheduler/scheduler.cpp: tasks on record, in the states that the scheduler can be in.
use mesos_framework.Base.{
  String, ◌≡◌, ◌≢◌, subst, [], get_or, Option, some, arith, Option-cases, inl, inr, Ensures,
}
use mesos_framework.Base.Dict
use mesos_framework.Flags.{Flags}
use mesos_framework.Proto.{running, ProbeRequest, ProbeResponse}
use mesos_framework.Mesos.{ResourceOps}
use mesos_framework.Scheduler.State.{
  new_host, prober, registry, metadata, data_service, client, api, s3, console, Scheduler, Service,
  initial_resources, quobyte_scheduler,
}
use mesos_framework.Scheduler.State.Fields.{state_of}
use mesos_framework.Scheduler.Tracking.{
  new_host-NodeIsTracked, IsTracked, NodeIsTracked, SchedulerIsTracked,
}
use mesos_framework.Scheduler.Tracking.Offers.{resource_offers-LeavesTracked}
use mesos_framework.Scheduler.Tracking.Updates.{
  status_update-SchedulerIsTracked, framework_message-SchedulerIsTracked,
}
use mesos_framework.Scheduler.Runs.{Step, offers, update, message, Reachable, start, next}

module _ {ℓ} {R : Type ℓ} (flags : Flags) (ops : ResourceOps R)
    (encode_request : ProbeRequest → String) (decode_response : String → Option ProbeResponse) where
  quobyte_scheduler-SchedulerIsTracked :
      (s : Scheduler R) → quobyte_scheduler flags ops ≡ some s → SchedulerIsTracked s
  unfolding quobyte_scheduler
  quobyte_scheduler-SchedulerIsTracked s e =
      elim (Option-cases (initial_resources {R = R} flags ops)) [
        | inl aborted ↦ absurd (ground arith)
        | inr (table, made) ↦
            let fields : (s.api_state.state ≢ running)
                × (s.console_state.state ≢ running)
                × (s.s3_state.state ≢ running)
                × (s.nodes ≡ []) =
              (ground arith, ground arith, ground arith, ground arith) in
            (
              (λ r. absurd (fields.0 r)),
              (λ r. absurd (fields.1 r)),
              (λ r. absurd (fields.2 r)),
              rw fields.3 tt,
            )
      ]

  Step-SchedulerIsTracked :
      (s s' : Scheduler R)
      → Step flags ops encode_request decode_response s s'
      → SchedulerIsTracked s
      → SchedulerIsTracked s'
  Step-SchedulerIsTracked s s' (offers persisted os calls e) h =
      subst (Ensures (λ r. SchedulerIsTracked r.0)) e
        (resource_offers-LeavesTracked flags ops persisted encode_request os s h)
  Step-SchedulerIsTracked s s' (update persisted now status e) h =
      rw (← e) (status_update-SchedulerIsTracked R persisted now status s h)
  Step-SchedulerIsTracked s s' (message now slave_id payload e) h =
      rw (← e) (framework_message-SchedulerIsTracked R decode_response now slave_id payload s h)

  Reachable-SchedulerIsTracked :
      (s : Scheduler R)
      → Reachable flags ops encode_request decode_response s
      → SchedulerIsTracked s
  Reachable-SchedulerIsTracked s (start e) = quobyte_scheduler-SchedulerIsTracked s e
  Reachable-SchedulerIsTracked s' (next {s = s} run step) =
      Step-SchedulerIsTracked s s' step (Reachable-SchedulerIsTracked s run)

  node-NodeIsTracked :
      (hostname : String) (s : Scheduler R)
      → SchedulerIsTracked s
      → NodeIsTracked (get_or (new_host hostname "") (Dict.find hostname s.nodes))
  node-NodeIsTracked hostname s h = elim (Option-cases (Dict.find hostname s.nodes)) [
    | inl absent ↦ rw absent (new_host-NodeIsTracked hostname "")
    | inr (node, found) ↦
        rw found (Dict.find-AllValues NodeIsTracked hostname node s.nodes h.3 found)
  ]

  state_of-IsTracked :
      (service : Service) (hostname : String) (s : Scheduler R)
      → SchedulerIsTracked s
      → IsTracked (state_of service hostname s)
  state_of-IsTracked api hostname s h = h.0
  state_of-IsTracked console hostname s h = h.1
  state_of-IsTracked s3 hostname s h = h.2
  state_of-IsTracked prober hostname s h = (node-NodeIsTracked hostname s h).0
  state_of-IsTracked registry hostname s h = (node-NodeIsTracked hostname s h).1
  state_of-IsTracked metadata hostname s h = (node-NodeIsTracked hostname s h).2
  state_of-IsTracked data_service hostname s h = (node-NodeIsTracked hostname s h).3
  state_of-IsTracked client hostname s h = (node-NodeIsTracked hostname s h).4

  -- In every state that calls of the handlers lead to, in whatever order and with whatever offers,
  -- updates and messages, a service that is recorded as running has the id of a task on record.
  pub Reachable-IsTracked :
      (s : Scheduler R) (service : Service) (hostname : String)
      → Reachable flags ops encode_request decode_response s
      → (state_of service hostname s).state ≡ running
      → (state_of service hostname s).task_id ≢ ""
  Reachable-IsTracked s service hostname run =
      state_of-IsTracked service hostname s (Reachable-SchedulerIsTracked s run)
