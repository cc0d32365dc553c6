-- ===== src/Scheduler/Tracking.antt =====
-- scheduler/scheduler.cpp, across the handlers: whether a service that is recorded as running has a
-- task on record. The children follow the offers and the updates.
pub mod Rounds
pub mod Offers
pub mod Updates
use mesos_framework.Base.{ℕ, String, ◌≡◌, ◌≢◌, refl, List, Option, none, some, get_or, Ensures}
use mesos_framework.Base.Dict
use mesos_framework.Proto.{running, ServiceState, NodeState, new_service}
use mesos_framework.Scheduler.State.{
  Scheduler, Service, prober, registry, metadata, data_service, client, api, s3, console, new_host,
  create_host, node_field, set_node_field, service_state, set_service_state,
}

-- A running service has the id of its task.
abbrev pub IsTracked : ServiceState → Type 0
IsTracked v = v.state ≡ running → v.task_id ≢ ""

abbrev pub NodeIsTracked : NodeState → Type 0
NodeIsTracked n =
    IsTracked n.prober
    × IsTracked n.registry
    × IsTracked n.metadata
    × IsTracked n.data_service
    × IsTracked n.client

abbrev pub SchedulerIsTracked {ℓ} : {R : Type ℓ} → Scheduler R → Type 0
SchedulerIsTracked s =
    IsTracked s.api_state
    × IsTracked s.console_state
    × IsTracked s.s3_state
    × Dict.AllValues NodeIsTracked s.nodes

pub new_host-NodeIsTracked :
    (hostname slave_id : String) → NodeIsTracked (new_host hostname slave_id)
new_host-NodeIsTracked hostname slave_id = ((λ e. cc), (λ e. cc), (λ e. cc), (λ e. cc), (λ e. cc))

module _ {ℓ} {R : Type ℓ} where
  pub create_host-SchedulerIsTracked :
      (hostname slave_id : String) (s : Scheduler R)
      → SchedulerIsTracked s
      → SchedulerIsTracked (create_host hostname slave_id s)
  unfolding create_host
  create_host-SchedulerIsTracked hostname slave_id s (a, b, c, h) = (
    a,
    b,
    c,
    Dict.insert-AllValues NodeIsTracked hostname (new_host hostname slave_id) s.nodes
        (new_host-NodeIsTracked hostname slave_id) h,
  )

  -- A change of a node that keeps it tracked.
  pub modify-SchedulerIsTracked :
      (hostname : String) (f : NodeState → NodeState) (s : Scheduler R)
      → ((n : NodeState) → NodeIsTracked n → NodeIsTracked (f n))
      → SchedulerIsTracked s
      → SchedulerIsTracked (record s { nodes = Dict.modify hostname f s.nodes })
  modify-SchedulerIsTracked hostname f s keeps (a, b, c, h) =
      (a, b, c, Dict.modify-AllValues NodeIsTracked hostname f s.nodes keeps h)

pub set_node_field-NodeIsTracked :
    (service : Service) (v : ServiceState) (n : NodeState)
    → IsTracked v
    → NodeIsTracked n
    → NodeIsTracked (set_node_field service v n)
set_node_field-NodeIsTracked prober v n p (a, b, c, d, e) = (p, b, c, d, e)
set_node_field-NodeIsTracked registry v n p (a, b, c, d, e) = (a, p, c, d, e)
set_node_field-NodeIsTracked metadata v n p (a, b, c, d, e) = (a, b, p, d, e)
set_node_field-NodeIsTracked data_service v n p (a, b, c, d, e) = (a, b, c, p, e)
set_node_field-NodeIsTracked client v n p (a, b, c, d, e) = (a, b, c, d, p)
set_node_field-NodeIsTracked api v n p h = h
set_node_field-NodeIsTracked s3 v n p h = h
set_node_field-NodeIsTracked console v n p h = h

pub set_service_state-SchedulerIsTracked {ℓ} :
    {R : Type ℓ} (service : Service) (hostname : String) (v : ServiceState) (s : Scheduler R)
    → IsTracked v
    → SchedulerIsTracked s
    → SchedulerIsTracked (set_service_state service hostname v s)
set_service_state-SchedulerIsTracked api hostname v s p (a, b, c, h) = (p, b, c, h)
set_service_state-SchedulerIsTracked s3 hostname v s p (a, b, c, h) = (a, b, p, h)
set_service_state-SchedulerIsTracked console hostname v s p (a, b, c, h) = (a, p, c, h)
set_service_state-SchedulerIsTracked prober hostname v s p h =
    modify-SchedulerIsTracked hostname _ s (λ n. set_node_field-NodeIsTracked prober v n p) h
set_service_state-SchedulerIsTracked registry hostname v s p h =
    modify-SchedulerIsTracked hostname _ s (λ n. set_node_field-NodeIsTracked registry v n p) h
set_service_state-SchedulerIsTracked metadata hostname v s p h =
    modify-SchedulerIsTracked hostname _ s (λ n. set_node_field-NodeIsTracked metadata v n p) h
set_service_state-SchedulerIsTracked data_service hostname v s p h =
    modify-SchedulerIsTracked hostname _ s (λ n. set_node_field-NodeIsTracked data_service v n p) h
set_service_state-SchedulerIsTracked client hostname v s p h =
    modify-SchedulerIsTracked hostname _ s (λ n. set_node_field-NodeIsTracked client v n p) h
