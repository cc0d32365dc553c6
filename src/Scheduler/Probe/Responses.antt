-- ===== src/Scheduler/Probe/Responses.antt =====
-- scheduler/scheduler.cpp: what `frameworkMessage` does to the nodes, and how many services count as
-- running.
use mesos_framework.Base.{
  ℕ, ◌+◌, ◌*◌, ◌≤◌, String, ◌≡◌, refl, List, [], ◌∷◌, Option, none, some, arith, ◌==◌,
  if◌then◌else◌, length,
}
use mathlib.Core.Option
use mesos_framework.Base.Dict
use mesos_framework.Base.Dict.{Dict}
use mesos_framework.Proto.{ServiceState, NodeState, ProbeResponse}
use mesos_framework.Scheduler.Policy.Starting.{
  running_count, one_if_running_lem, core_services_running_lem, core_services_running-le,
}
use mesos_framework.Scheduler.State.{Scheduler}
use mesos_framework.Scheduler.Probe.{
  with_response, take_response, framework_message, count_nodes, count_running_services,
}

module _ (decode : String → Option ProbeResponse) (now : ℕ) (slave_id payload : String) where
  -- The node once the message has been taken in.
  abbrev pub answered : NodeState → NodeState
  answered node =
      if node.slave_id_value == slave_id
      then elim (decode payload) [ none ↦ node | some response ↦ with_response now response node ]
      else node

  map-unread : (o : Option NodeState) → decode payload ≡ none → Option.map answered o ≡ o
  map-unread none h = refl
  map-unread (some node) h = ground arith

  find-take_response :
      (hostname : String) (nodes : Dict NodeState)
      → Dict.find hostname (take_response decode now slave_id payload nodes)
        ≡ Option.map answered (Dict.find hostname nodes)
  unfolding take_response Dict.find
  find-take_response hostname [] = refl
  find-take_response hostname ((k, node) ∷ nodes) =
      ground (arith, find-take_response hostname nodes, map-unread (Dict.find hostname nodes))

  pub find-framework_message {ℓ} :
      {R : Type ℓ} (hostname : String) (s : Scheduler R)
      → Dict.find hostname (framework_message decode now slave_id payload s).nodes
        ≡ Option.map answered (Dict.find hostname s.nodes)
  unfolding framework_message
  find-framework_message hostname s = find-take_response hostname s.nodes

-- The core services of the hosts.
abbrev pub cores_of : Dict NodeState → List ServiceState
cores_of [] = []
cores_of ((hostname, node) ∷ nodes) =
    node.registry ∷ node.metadata ∷ node.data_service ∷ cores_of nodes

-- The services of the cluster but the probers and the clients.
abbrev pub services_of {ℓ} : {R : Type ℓ} → Scheduler R → List ServiceState
services_of s = s.api_state ∷ s.s3_state ∷ s.console_state ∷ cores_of s.nodes

count_nodes_lem : (nodes : Dict NodeState) → count_nodes nodes ≡ running_count (cores_of nodes)
unfolding count_nodes
count_nodes_lem [] = refl
count_nodes_lem ((hostname, node) ∷ nodes) =
    omega (arith, core_services_running_lem node, count_nodes_lem nodes)

count_nodes-le : (nodes : Dict NodeState) → count_nodes nodes ≤ 3 * length nodes
unfolding count_nodes
count_nodes-le [] = omega arith
count_nodes-le ((hostname, node) ∷ nodes) =
    omega (arith, core_services_running-le node, count_nodes-le nodes)

-- The health check counts the services that run among the API, S3 and the console and, on every
-- host, the registry, metadata and data services. It counts at most three for the cluster and three
-- for each host.
pub count_running_services_lem {ℓ} :
    {R : Type ℓ} (s : Scheduler R)
    → (count_running_services s ≡ running_count (services_of s))
      × (count_running_services s ≤ 3 + 3 * length s.nodes)
unfolding count_running_services
count_running_services_lem s = (
  omega (
    arith,
    one_if_running_lem s.api_state,
    one_if_running_lem s.s3_state,
    one_if_running_lem s.console_state,
    count_nodes_lem s.nodes,
  ),
  ground (arith, count_nodes-le s.nodes),
)
