-- ===== src/Scheduler/Probe.antt =====
-- scheduler/scheduler.cpp: `frameworkMessage`, which takes in what a prober found, and
-- `countRunningServices`.
pub mod Responses
use mesos_framework.Base.{
  ℕ, ◌+◌, String, true, List, [], ◌∷◌, Option, none, some, ◌==◌, if◌then◌else◌,
}
use mesos_framework.Base.Dict.{Dict}
use mesos_framework.Proto.{ServiceState, NodeState, ProbeResponse}
use mesos_framework.Scheduler.Policy.{one_if_running, core_services_running}
use mesos_framework.Scheduler.State.{Scheduler}

abbrev pub with_response : ℕ → ProbeResponse → NodeState → NodeState
with_response now response node = record node {
  device_type = response.device_type;
  client_mount_point = response.client_mount_point;
  prober = record node.prober { last_seen_s = now };
  device_types_valid = true;
}

module _ (decode_response : String → Option ProbeResponse) (now : ℕ)
    (slave_id payload : String) where
  -- The loop over the nodes: a response that does not parse ends it.
  unfoldable pub take_response : Dict NodeState → Dict NodeState
  take_response [] = []
  take_response ((hostname, node) ∷ nodes) =
      let rest = take_response nodes in
      if node.slave_id_value == slave_id
      then elim (decode_response payload) [
        | none ↦ (hostname, node) ∷ nodes
        | some response ↦ (hostname, with_response now response node) ∷ rest
      ]
      else (hostname, node) ∷ rest

  unfoldable pub framework_message {ℓ} : {R : Type ℓ} → Scheduler R → Scheduler R
  unfolding take_response
  framework_message s = record s { nodes = take_response s.nodes }

count_nodes : Dict NodeState → ℕ
count_nodes [] = 0
count_nodes ((hostname, node) ∷ nodes) = core_services_running node + count_nodes nodes

unfoldable pub count_running_services {ℓ} : {R : Type ℓ} → Scheduler R → ℕ
unfolding count_nodes
count_running_services s =
    one_if_running s.api_state
    + (one_if_running s.s3_state + (one_if_running s.console_state + count_nodes s.nodes))
