-- ===== src/Scheduler/Task.antt =====
-- scheduler/scheduler.cpp: the descriptions of the tasks that the scheduler launches. The port
-- mappings of bridge networking are left out: the file does not define BRIDGE_NETWORKING.
use Prim.Native.String.{◌++◌}
use mesos_framework.Base.{
  ℕ, String, Bool, true, false, [], ◌∷◌, Option, none, some, ◌>>=◌, if◌then◌else◌,
}
use mesos_framework.Base.Text.{is_empty}
use mesos_framework.Flags.{Flags}
use mesos_framework.Proto.{SchedulerState}
use mesos_framework.Mesos.{Volume, host, DockerInfo, ContainerInfo, TaskInfo, ResourceOps}
use mesos_framework.Scheduler.Names.{executor_id_prefix, docker_image_version}
use mesos_framework.Scheduler.Command.{u16, construct_docker_execute_command}
use mesos_framework.Scheduler.State.{Scheduler, resources_for}

unfoldable pub create_qb_container_info : Flags → ContainerInfo
create_qb_container_info flags = record {
  volumes = record { container_path = "/devices"; host_path = flags.host_device_directory } ∷ [];
  docker = none;
}

unfoldable pub create_qb_docker_info : String → Bool → DockerInfo
create_qb_docker_info docker_image same_pid = record {
  privileged = true;
  network = host;
  image = docker_image;
  parameters = if same_pid then ("pid", "host") ∷ [] else [];
}

module _ {ℓ} {R : Type ℓ} where
  -- `mesos::TaskInfo taskInfo;`
  abbrev pub empty_task : TaskInfo R
  empty_task = record {
    name = "";
    task_id = "";
    slave_id = "";
    resources = none;
    executor = none;
    container = none;
    command = none;
    labels = [];
    discovery = none;
  }

  unfoldable pub create_prober_task_info : Flags → String → Option (TaskInfo R)
  unfolding create_qb_container_info create_qb_docker_info
  create_prober_task_info flags framework_id =
      if is_empty flags.framework_image
      then none
      else some (record empty_task {
        executor = some (record {
          executor_id = executor_id_prefix ++ framework_id;
          source = "quobyte";
          container = record (create_qb_container_info flags) {
            docker = some (create_qb_docker_info flags.framework_image false);
          };
          command = record {
            command_line =
                "LD_LIBRARY_PATH=/opt MESOS_SLAVE_ID=$MESOS_SLAVE_ID /opt/quobyte-mesos-executor";
            shell = true;
          };
        });
      })

  unfoldable pub create_client_task_info : Flags → TaskInfo R
  unfolding create_qb_docker_info
  create_client_task_info flags = record empty_task {
    container = some (record { volumes = quobyte ∷ []; docker = some docker });
  }
    where
      quobyte : Volume
      quobyte = record { container_path = "/quobyte"; host_path = flags.host_device_directory }

      docker : DockerInfo
      docker = record (create_qb_docker_info flags.client_image false) {
        parameters =
            ("e", "QUOBYTE_REGISTRY=" ++ (flags.registry_dns_name ++ flags.mesos_dns_domain)) ∷ [];
      }

  unfoldable pub make_task :
      Flags
      → ResourceOps R
      → SchedulerState
      → Scheduler R
      → (service_id name task_id host_name : String) (rpc_port http_port : ℕ) (slave_id : String)
      → Option (TaskInfo R)
  unfolding create_qb_container_info create_qb_docker_info
  make_task flags ops persisted s service_id name task_id host_name rpc_port http_port slave_id = do
    let version = persisted.target_version
    let label : String × String = (docker_image_version, version)
    command_line ←
        construct_docker_execute_command flags service_id host_name (u16 rpc_port) (u16 http_port)
    some (record {
      name = name;
      task_id = task_id;
      slave_id = slave_id;
      resources = some (resources_for flags ops service_id s);
      executor = none;
      container = some (record (create_qb_container_info flags) {
        docker = some (create_qb_docker_info (flags.docker_image ++ (":" ++ version)) false);
      });
      command = some (record { command_line = command_line; shell = true });
      labels = label ∷ [];
      discovery = some (record {
        name = service_id;
        version = version;
        labels = label ∷ [];
        ports = record { number = u16 rpc_port; name = "rpc"; protocol = "tcp" } ∷ [];
      });
    })
