-- ===== src/Scheduler/State/Fields.antt =====
-- scheduler/scheduler.cpp: reading and writing through the pointer of `getService`.
use Prim.Native.String.{◌++◌}
use text.Mathlib.Text.{starts_with}
use text.Mathlib.TextLemmas.{append_assoc}
use text.Mathlib.TextPositions.{starts_with-append}
use mesos_framework.Base.{
  String, ◌≡◌, refl, subst, ◌≢◌, Bool, true, false, not, ◌&&◌, none, some, arith, eq_iff, eq_refl,
  ◌==◌, get_or, inl, inr, Bool-cases,
}
use mesos_framework.Base.Dict
use mesos_framework.Base.Dict.{find-insert, find-modify}
use mesos_framework.Proto.{ServiceState, NodeState}
use mesos_framework.Scheduler.State.{
  Scheduler, Service, prober, registry, metadata, data_service, client, api, s3, console, new_host,
  create_host, get_service, set_node_field, service_state, set_service_state, is_shared,
}

-- The part of a task's id that names the service.
abbrev pub task_name : Service → String
task_name prober = "quobyte-device-prober"
task_name registry = "quobyte-registry"
task_name metadata = "quobyte-metadata"
task_name data_service = "quobyte-data"
task_name client = "quobyte-client"
task_name api = "quobyte-api"
task_name s3 = "quobyte-s3"
task_name console = "quobyte-webconsole"

pub get_service-task_name : (service : Service) → get_service (task_name service) ≡ some service
unfolding get_service
get_service-task_name prober = refl
get_service-task_name _ = refl

begins : String → String → Bool
begins m p = starts_with m p

begins_no_name : String → Bool
begins_no_name p =
    not (begins "quobyte-device-prober" p)
    && not (begins "quobyte-registry" p)
    && not (begins "quobyte-metadata" p)
    && not (begins "quobyte-data" p)
    && not (begins "quobyte-api" p)
    && not (begins "quobyte-s3" p)
    && not (begins "quobyte-webconsole" p)
    && not (begins "quobyte-client" p)

differs : (p t m : String) → begins m p ≡ false → (p ++ t == m) ≡ false
unfolding begins
differs p t m h = elim (Bool-cases (p ++ t == m)) [
  | inl e ↦
      let found : begins m p ≡ true =
        subst (λ u. begins u p ≡ true) ((eq_iff (p ++ t) m).0 e) (starts_with-append p t) in
      cc (found, h)
  | inr e ↦ e
]

get_service-longer : (p t : String) → begins_no_name p ≡ true → get_service (p ++ t) ≡ none
unfolding get_service begins_no_name
get_service-longer p t h = ground (
  arith,
  differs p t "quobyte-device-prober",
  differs p t "quobyte-registry",
  differs p t "quobyte-metadata",
  differs p t "quobyte-data",
  differs p t "quobyte-api",
  differs p t "quobyte-s3",
  differs p t "quobyte-webconsole",
  differs p t "quobyte-client",
)

begins_no_name-dash : (service : Service) → begins_no_name (task_name service ++ "-") ≡ true
unfolding begins_no_name begins
begins_no_name-dash prober = refl
begins_no_name-dash _ = refl

-- A name with a dash and more behind it is no service's.
pub get_service-dash :
    (service : Service) (t : String) → get_service (task_name service ++ ("-" ++ t)) ≡ none
get_service-dash service t =
    rw (← append_assoc)
      (get_service-longer (task_name service ++ "-") t (begins_no_name-dash service))

-- The state of a service on a host; of a host with no node it is the state of a new one.
abbrev pub state_of {ℓ} : {R : Type ℓ} → Service → String → Scheduler R → ServiceState
state_of service hostname s =
    service_state service (get_or (new_host hostname "") (Dict.find hostname s.nodes)) s

module _ {ℓ} {R : Type ℓ} where
  -- A write through the pointer changes no other service.
  pub state_of-set_other :
      (service other : Service) (hostname host' : String) (v : ServiceState) (s : Scheduler R)
      → service ≢ other
      → state_of other host' (set_service_state service hostname v s) ≡ state_of other host' s
  state_of-set_other service other hostname host' v s h =
      ground (arith, find-modify hostname host' (set_node_field service v) s.nodes)

  -- Nor does it change another host, but for the services that all hosts share.
  pub state_of-set_elsewhere :
      (service other : Service) (hostname host' : String) (v : ServiceState) (s : Scheduler R)
      → hostname ≢ host'
      → is_shared service ≡ false
      → state_of other host' (set_service_state service hostname v s) ≡ state_of other host' s
  state_of-set_elsewhere service other hostname host' v s h k =
      ground (
        arith,
        find-modify hostname host' (set_node_field service v) s.nodes,
        eq_iff hostname host',
      )

  -- What is written is read, on a host that has a node.
  pub state_of-set_self :
      (service : Service) (hostname : String) (v : ServiceState) (s : Scheduler R)
      (node : NodeState)
      → Dict.find hostname s.nodes ≡ some node
      → state_of service hostname (set_service_state service hostname v s) ≡ v
  state_of-set_self service hostname v s node h =
      ground
        (arith, find-modify hostname hostname (set_node_field service v) s.nodes, eq_refl hostname)

  -- A new host changes the state of no service.
  pub state_of-create_host :
      (service : Service) (host' hostname slave_id : String) (s : Scheduler R)
      → state_of service host' (create_host hostname slave_id s) ≡ state_of service host' s
  unfolding create_host
  state_of-create_host service host' hostname slave_id s =
      ground (arith, find-insert hostname host' (new_host hostname slave_id) s.nodes)

  -- A host that was created has a node.
  pub find-create_host :
      (hostname slave_id : String) (s : Scheduler R)
      → Dict.find hostname (create_host hostname slave_id s).nodes
        ≡ some (get_or (new_host hostname slave_id) (Dict.find hostname s.nodes))
  unfolding create_host
  find-create_host hostname slave_id s =
      ground (
        arith,
        find-insert hostname hostname (new_host hostname slave_id) s.nodes,
        eq_refl hostname,
      )
