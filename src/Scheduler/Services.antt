-- ===== src/Scheduler/Services.antt =====
-- scheduler/scheduler.cpp, the block of `resourceOffers` that starts services, or kills them where
-- there is no version to deploy. Each step takes the variables that the block changes, a `Round`.
pub mod Counts
pub mod Shared
pub mod Rounds
pub mod Killing
pub mod Budget
pub mod Cores
pub mod Devices
pub mod Crowded
pub mod Naming
use Prim.Native.String.{◌++◌ as append}
use text.Mathlib.Text.{find?}
use mesos_framework.Base.{
  ℕ, ◌+◌, String, Bool, true, false, not, ◌&&◌, ◌||◌, List, [], ◌∷◌, ◌++◌, Option, none, some,
  ◌>>=◌, ltb, if◌then◌else◌, is_empty, is_none,
}
use mesos_framework.Base.Text.{is_empty as is_empty_text}
use mesos_framework.Base.Dict
use mesos_framework.Flags.{Flags}
use mesos_framework.Proto.{
  DeviceType, starting, running, ServiceState, NodeState, SchedulerState, ProbeRequest, is_running,
  is_starting,
}
use mesos_framework.Mesos.{
  TaskStatus, task_lost, Offer, TaskInfo, Call, decline_offer, launch_tasks, reconcile_tasks,
  send_framework_message, ResourceOps,
}
use mesos_framework.Scheduler.Names.{
  prober_task, registry_task, metadata_task, data_task, api_task, s3_task, webconsole_task,
  client_task, executor_id_prefix, id_on,
}
use mesos_framework.Scheduler.Policy.{do_start_service, kill_service_if_running}
use mesos_framework.Scheduler.State.{
  Scheduler, Service, registry, metadata, data_service, node_field, set_node_field, create_host,
  resources_for,
}
use mesos_framework.Scheduler.Task.{create_prober_task_info, create_client_task_info, make_task}

-- The variables that the block changes.
pub record Round {ℓ} (R : Type ℓ) : Type ℓ where
  pub remaining : R
  pub tasks : List (TaskInfo R)
  pub node : NodeState
  pub scheduler : Scheduler R

module _ {ℓ} {R : Type ℓ} where
  unfoldable pub kill_services : Offer R → NodeState → Scheduler R → List (Call R)
  kill_services offer node s =
      kill_service_if_running (id_on "quobyte-registry" offer.hostname) node.registry
      ++ (kill_service_if_running (id_on "quobyte-data" offer.hostname) node.data_service
          ++ (kill_service_if_running (id_on "quobyte-metadata" offer.hostname) node.metadata
              ++ (kill_service_if_running (id_on "quobyte-api" offer.hostname) s.api_state
                  ++ (kill_service_if_running (id_on "quobyte-s3" offer.hostname) s.s3_state
                      ++ kill_service_if_running (id_on "quobyte-webconsole" offer.hostname)
                          s.console_state))))

module _ {ℓ} {R : Type ℓ} (flags : Flags) (ops : ResourceOps R) (persisted : SchedulerState) where
  -- Whether the resources that are left may host the console, the API or S3.
  abbrev pub role_allows : R → Bool
  role_allows remaining =
      is_empty_text flags.public_slave_role
      || ltb 0 (ops.reserved_size remaining flags.public_slave_role)

  abbrev pub launched : ServiceState → String → ServiceState
  launched service task_id = record service { state = running; task_id = task_id }

  -- The round once a task has been added and its resources have been taken.
  abbrev pub add_task : R → TaskInfo R → Round R → Round R
  add_task needed task r = record r {
    remaining = ops.minus r.remaining needed;
    tasks = r.tasks ++ task ∷ [];
  }

  -- A service that runs once for all hosts: `field` and `put` are its state in the scheduler.
  unfoldable pub start_shared :
      (service_id name : String) (rpc_port http_port : ℕ)
      → (Scheduler R → ServiceState)
      → (ServiceState → Scheduler R → Scheduler R)
      → Offer R
      → Round R
      → Option (Round R)
  start_shared service_id name rpc_port http_port field put offer r =
      let s = r.scheduler in
      let needed = resources_for flags ops service_id s in
      let task_id = id_on name offer.hostname in
      if ops.contains r.remaining needed
        && do_start_service service_id r.node (field s).state
        && role_allows r.remaining
      then (do
        task ←
            make_task flags ops persisted s service_id name task_id offer.hostname rpc_port
              http_port offer.slave_id
        some (record (add_task needed task r) { scheduler = put (launched (field s) task_id) s }))
      else some r

  unfoldable pub start_api : Offer R → Round R → Option (Round R)
  start_api =
      start_shared api_task "quobyte-api" (flags.port_range_base + 6) (flags.port_range_base + 7)
        (λ s. s.api_state) (λ v s. record s { api_state = v })

  unfoldable pub start_s3 : Offer R → Round R → Option (Round R)
  start_s3 offer r =
      if is_empty_text flags.s3_hostname
      then some r
      else start_shared s3_task "quobyte-s3" (flags.port_range_base + 10)
          (flags.port_range_base + 11) (λ s. s.s3_state) (λ v s. record s { s3_state = v }) offer r

  unfoldable pub start_console : Offer R → Round R → Option (Round R)
  start_console =
      start_shared webconsole_task "quobyte-webconsole" (flags.port_range_base + 8)
        (flags.port_range_base + 9) (λ s. s.console_state) (λ v s. record s { console_state = v })

  unfoldable pub start_client : Offer R → Round R → Round R
  start_client offer r =
      let needed = resources_for flags ops client_task r.scheduler in
      let task_id = id_on "quobyte-client" offer.hostname in
      let task = record (create_client_task_info flags) {
        name = "quobyte-client";
        task_id = task_id;
        slave_id = offer.slave_id;
      } in
      if ops.contains r.remaining needed
        && do_start_service client_task r.node r.node.client.state
        && r.node.client_mount_point
      then record (add_task needed task r) {
        node = record r.node { client = launched r.node.client task_id };
      }
      else r

  -- One case of the `switch`: a service that runs where there is a device for it.
  unfoldable pub start_core :
      (service_id name : String) (rpc_port http_port : ℕ)
      → Service
      → (message : String) → Offer R
      → Round R
      → Option (Round R)
  start_core service_id name rpc_port http_port service message offer r =
      let needed = resources_for flags ops service_id r.scheduler in
      let state = node_field service r.node in
      let poor = record r {
        node = set_node_field service (record state { last_message = message }) r.node;
      } in
      if do_start_service service_id r.node state.state
      then (if ops.contains r.remaining needed
          then (do
            task ←
                make_task flags ops persisted r.scheduler service_id name
                  (id_on name offer.hostname) offer.hostname rpc_port http_port offer.slave_id
            some (add_task needed task r))
          else some poor)
      else some r

  unfoldable pub start_device : DeviceType → Offer R → Round R → Option (Round R)
  start_device DeviceType.registry =
      start_core registry_task "quobyte-registry" flags.port_range_base (flags.port_range_base + 1)
        registry "Could not start registry: insufficient resources"
  start_device DeviceType.metadata =
      start_core metadata_task "quobyte-metadata" (flags.port_range_base + 2)
        (flags.port_range_base + 3) metadata "Could not start metadata: insufficient resources"
  start_device DeviceType.data_device =
      start_core data_task "quobyte-data" (flags.port_range_base + 4) (flags.port_range_base + 5)
        data_service "Could not start data: insufficient resources"
  start_device DeviceType.bootstrap = λ offer r. some r
  start_device DeviceType.client = λ offer r. some r

  unfoldable pub start_devices : List DeviceType → Offer R → Round R → Option (Round R)
  start_devices [] offer r = some r
  start_devices (d ∷ ds) offer r = do r' ← start_device d offer r; start_devices ds offer r'

  unfoldable pub start_services : Offer R → Round R → Option (Round R)
  start_services offer r = do
    r ← start_api offer r
    r ← start_s3 offer r
    r ← start_console offer r
    let r' = start_client offer r
    start_devices r'.node.device_type offer r'
