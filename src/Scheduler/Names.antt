-- ===== src/Scheduler/Names.antt =====
-- scheduler/scheduler.cpp: the names of services, of tasks and of paths.
use mesos_framework.Base.{String}
use Prim.Native.String.{◌++◌}

abbrev pub prober_task : String
prober_task = "prober"

abbrev pub registry_task : String
registry_task = "registry"

abbrev pub metadata_task : String
metadata_task = "metadata"

abbrev pub data_task : String
data_task = "data"

abbrev pub api_task : String
api_task = "api"

abbrev pub s3_task : String
s3_task = "s3"

abbrev pub webconsole_task : String
webconsole_task = "webconsole"

abbrev pub client_task : String
client_task = "client"

abbrev pub executor_id_prefix : String
executor_id_prefix = "quobyte-mesos-prober-"

abbrev pub archive_url : String
archive_url = "/executor.tar.gz"

abbrev pub version_api_url : String
version_api_url = "/v1/version"

abbrev pub health_url : String
health_url = "/v1/health"

abbrev pub docker_image_version : String
docker_image_version = "docker_image_version"

-- A task's id is its service's name, a dash and the host's name.
abbrev pub id_on : String → String → String
id_on service hostname = service ++ ("-" ++ hostname)
