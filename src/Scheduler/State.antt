-- ===== src/Scheduler/State.antt =====
-- scheduler/scheduler.hpp: the scheduler's fields; scheduler.cpp: its constructor, the creation of
-- hosts and the lookup of a service's state.
pub mod Fields
use mesos_framework.Base.{
  ℕ, ◌+◌, String, Bool, true, false, List, [], ◌∷◌, Option, none, some, ◌==◌, ◌>>=◌, get_or,
  if◌then◌else◌,
}
use Prim.Native.String.{◌++◌}
use mesos_framework.Base.Dict
use mesos_framework.Base.Dict.{Dict}
use mesos_framework.Flags.{Flags}
use mesos_framework.Proto.{ServiceState, NodeState, new_service, new_node}
use mesos_framework.Mesos.{ResourceOps}
use mesos_framework.Scheduler.Names.{
  prober_task, registry_task, metadata_task, data_task, api_task, s3_task, webconsole_task,
  client_task,
}
use mesos_framework.Scheduler.Command.{u16, build_resource_string}

pub record Scheduler {ℓ} (R : Type ℓ) : Type ℓ where
  pub resources : Dict R
  pub api_state : ServiceState
  pub console_state : ServiceState
  pub s3_state : ServiceState
  pub nodes : Dict NodeState

abbrev pub new_host : String → String → NodeState
new_host hostname slave_id = record new_node { hostname = hostname; slave_id_value = slave_id }

module _ {ℓ} {R : Type ℓ} where
  unfoldable pub create_host : String → String → Scheduler R → Scheduler R
  create_host hostname slave_id s = record s {
    nodes = Dict.insert hostname (new_host hostname slave_id) s.nodes;
  }

  module _ (flags : Flags) (ops : ResourceOps R) where
    -- `resources_[service_id]`
    abbrev pub resources_for : String → Scheduler R → R
    resources_for service_id s = get_or ops.nothing (Dict.find service_id s.resources)

    -- A string that does not parse ends the process.
    parse_into : String → String → Dict R → Option (Dict R)
    parse_into service_id text resources = do
      parsed ← ops.parse text
      some (Dict.insert service_id parsed resources)

    unfoldable pub prepare_service_resources : String → ℕ → ℕ → String → Dict R → Option (Dict R)
    unfolding parse_into build_resource_string
    prepare_service_resources service_id rpc_port http_port sys_resources resources =
        let extra_port =
          if service_id == "api"
          then u16 flags.api_port
          else (if service_id == "webconsole"
              then u16 flags.webconsole_port
              else (if service_id == "s3" then u16 flags.s3_port else 0)) in
        parse_into service_id
          (sys_resources
            ++ (";" ++ build_resource_string (u16 rpc_port) (u16 http_port) extra_port))
          resources

    -- The constructor's table; the entry for S3 is made from the resources of the webconsole.
    unfoldable pub initial_resources : Option (Dict R)
    unfolding prepare_service_resources
    initial_resources = do
      let base = flags.port_range_base
      r ← prepare_service_resources registry_task base (base + 1) flags.registry_resources []
      r ← prepare_service_resources metadata_task (base + 2) (base + 3) flags.metadata_resources r
      r ← prepare_service_resources data_task (base + 4) (base + 5) flags.data_resources r
      r ← prepare_service_resources api_task (base + 6) (base + 7) flags.api_resources r
      r ←
          prepare_service_resources webconsole_task (base + 8) (base + 9) flags.webconsole_resources
            r
      r ← prepare_service_resources s3_task (base + 10) (base + 11) flags.webconsole_resources r
      r ← parse_into prober_task flags.prober_resources r
      parse_into client_task flags.client_resources r

    unfoldable pub quobyte_scheduler : Option (Scheduler R)
    unfolding initial_resources
    quobyte_scheduler = do
      table ← initial_resources
      some (record {
        resources = table;
        api_state = new_service;
        console_state = new_service;
        s3_state = new_service;
        nodes = [];
      })

-- What `getService` points to: a field of the host's node, or one that all hosts share.
pub data Service : Type 0 where
  prober registry metadata data_service client : Service
  api s3 console : Service

unfoldable pub get_service : String → Option Service
get_service service =
    if service == "quobyte-device-prober"
    then some prober
    else (if service == "quobyte-registry"
        then some registry
        else (if service == "quobyte-metadata"
            then some metadata
            else (if service == "quobyte-data"
                then some data_service
                else (if service == "quobyte-api"
                    then some api
                    else (if service == "quobyte-s3"
                        then some s3
                        else (if service == "quobyte-webconsole"
                            then some console
                            else (if service == "quobyte-client" then some client else none)))))))

-- A service of which there is one for all hosts.
abbrev pub is_shared : Service → Bool
is_shared api = true
is_shared s3 = true
is_shared console = true
is_shared _ = false

-- The field of a node that a service of the host has.
abbrev pub node_field : Service → NodeState → ServiceState
node_field prober node = node.prober
node_field registry node = node.registry
node_field metadata node = node.metadata
node_field data_service node = node.data_service
node_field client node = node.client
node_field _ node = new_service

abbrev pub set_node_field : Service → ServiceState → NodeState → NodeState
set_node_field prober v node = record node { prober = v }
set_node_field registry v node = record node { registry = v }
set_node_field metadata v node = record node { metadata = v }
set_node_field data_service v node = record node { data_service = v }
set_node_field client v node = record node { client = v }
set_node_field _ v node = node

module _ {ℓ} {R : Type ℓ} where
  -- Reading through the pointer.
  abbrev pub service_state : Service → NodeState → Scheduler R → ServiceState
  service_state api node s = s.api_state
  service_state s3 node s = s.s3_state
  service_state console node s = s.console_state
  service_state service node s = node_field service node

  -- Writing through it.
  abbrev pub set_service_state : Service → String → ServiceState → Scheduler R → Scheduler R
  set_service_state api hostname v s = record s { api_state = v }
  set_service_state s3 hostname v s = record s { s3_state = v }
  set_service_state console hostname v s = record s { console_state = v }
  set_service_state service hostname v s = record s {
    nodes = Dict.modify hostname (set_node_field service v) s.nodes;
  }
