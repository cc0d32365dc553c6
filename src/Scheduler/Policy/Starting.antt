-- ===== src/Scheduler/Policy/Starting.antt =====
-- scheduler/scheduler.cpp: what `DoStartService` asks of a host.
use mesos_framework.Base.{
  ◌≢◌, List, [], ◌∷◌, ◌+◌, ℕ, false, Bool-cases, ◌≤◌, ◌<◌, String, ◌≡◌, ◌↔◌, ◌⊎◌, inl, inr, true,
  arith, eq_iff, length,
}
use mesos_framework.Proto.{ServiceTaskState, running, not_running, ServiceState, NodeState}
use mesos_framework.Scheduler.Names.{registry_task, metadata_task, data_task}
use mesos_framework.Scheduler.Policy.{one_if_running, core_services_running, do_start_service}

-- The services that need a device.
abbrev pub IsCore : String → Type 0
IsCore t = (t ≡ registry_task) ⊎ (t ≡ metadata_task) ⊎ (t ≡ data_task)

-- How many of these services run.
abbrev pub running_count : List ServiceState → ℕ
running_count [] = 0
running_count (s ∷ ss) = elim s.state [ running ↦ 1 | _ ↦ 0 ] + running_count ss

pub one_if_running_lem :
    (s : ServiceState) → one_if_running s ≡ elim s.state [ running ↦ 1 | _ ↦ 0 ]
one_if_running_lem s = ground arith

pub core_services_running_lem :
    (node : NodeState)
    → core_services_running node
      ≡ running_count (node.registry ∷ node.metadata ∷ node.data_service ∷ [])
core_services_running_lem node = omega (
  arith,
  one_if_running_lem node.registry,
  one_if_running_lem node.metadata,
  one_if_running_lem node.data_service,
)

-- The answer of `DoStartService` is yes exactly where the host's devices are known, the service is
-- known not to run, and it is a core service or as many of the registry, metadata and data services
-- of the host run as the host has devices listed.
pub do_start_service_iff :
    (service_type : String) (node : NodeState) (state : ServiceTaskState)
    → (do_start_service service_type node state ≡ true) ↔ (
        (node.device_types_valid ≡ true)
        × (state ≡ not_running)
        × (IsCore service_type
            ⊎ (running_count (node.registry ∷ node.metadata ∷ node.data_service ∷ [])
                ≡ length node.device_type)))
unfolding do_start_service
do_start_service_iff t node state =
    rw (← core_services_running_lem node)
      (ground (arith, eq_iff t registry_task, eq_iff t metadata_task, eq_iff t data_task))

one_if_running-le : (s : ServiceState) → one_if_running s ≤ 1
one_if_running-le s = ground arith

-- At most three core services run on a host.
pub core_services_running-le : (node : NodeState) → core_services_running node ≤ 3
core_services_running-le node = omega (
  arith,
  one_if_running-le node.registry,
  one_if_running-le node.metadata,
  one_if_running-le node.data_service,
)

-- Where the prober of a host lists more than three devices, `DoStartService` admits only core
-- services.
pub crowded_host :
    (service_type : String) (node : NodeState) (state : ServiceTaskState)
    → 3 < length node.device_type
    → service_type ≢ registry_task
    → service_type ≢ metadata_task
    → service_type ≢ data_task
    → do_start_service service_type node state ≡ false
crowded_host t node state crowded a b c = elim (Bool-cases (do_start_service t node state)) [
  | inr refused ↦ refused
  | inl started ↦ elim ((do_start_service_iff t node state).0 started).2 [
    | inl (inl e) ↦ absurd (a e)
    | inl (inr (inl e)) ↦ absurd (b e)
    | inl (inr (inr e)) ↦ absurd (c e)
    | inr all_run ↦
        absurd (omega (arith, core_services_running-le node, core_services_running_lem node))
  ]
]
