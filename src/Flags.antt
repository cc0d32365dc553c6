-- ===== src/Flags.antt =====
-- The command-line flags of scheduler/scheduler.cpp. Sizes, ports and intervals are not negative;
-- the debug port is an integer, since -1 switches it off.
use mesos_framework.Base.{ℕ, String, Bool, false, true}
use mesos_framework.Base.Int.{ℤ, negsuc}

pub record Flags : Type 0 where
  pub probe_interval_s : ℕ
  pub probe_executor_keepalive_interval_s : ℕ
  pub reconcile_service_interval_s : ℕ
  pub restrict_hosts : String
  pub docker_image : String
  pub registry_dns_name : String
  pub mesos_dns_domain : String
  pub registry_resources : String
  pub metadata_resources : String
  pub data_resources : String
  pub prober_resources : String
  pub client_resources : String
  pub api_resources : String
  pub s3_resources : String
  pub webconsole_resources : String
  pub extra_service_config : String
  pub service_debug_port : ℤ
  pub registry_extra_ram_mb : ℕ
  pub metadata_extra_ram_mb : ℕ
  pub s3_extra_ram_mb : ℕ
  pub enable_assertions : Bool
  pub host_device_directory : String
  pub port_range_base : ℕ
  pub api_port : ℕ
  pub s3_port : ℕ
  pub s3_hostname : String
  pub webconsole_port : ℕ
  pub framework_image : String
  pub client_image : String
  pub public_slave_role : String
  pub autodetect_service_ip : Bool
  pub client_mount_point : String

-- The values that the `DEFINE_…` lines give.
abbrev pub default_flags : Flags
default_flags = record {
  probe_interval_s = 120;
  probe_executor_keepalive_interval_s = 60;
  reconcile_service_interval_s = 60;
  restrict_hosts = "";
  docker_image = "";
  registry_dns_name = "_registry._tcp.quobyte";
  mesos_dns_domain = ".mesos";
  registry_resources = "cpus:1.0;mem:2084;disk:32";
  metadata_resources = "cpus:2.0;mem:8192;disk:32";
  data_resources = "cpus:4.0;mem:4096;disk:32";
  prober_resources = "cpus:0.1;mem:256;disk:150";
  client_resources = "cpus:2.0;mem:2048;disk:150";
  api_resources = "cpus:0.1;mem:512;disk:32";
  s3_resources = "cpus:1.0;mem:512;disk:32";
  webconsole_resources = "cpus:0.5;mem:512;disk:32";
  extra_service_config = "";
  service_debug_port = negsuc 0;
  registry_extra_ram_mb = 512;
  metadata_extra_ram_mb = 1024;
  s3_extra_ram_mb = 1536;
  enable_assertions = false;
  host_device_directory = "/mnt";
  port_range_base = 21000;
  api_port = 8889;
  s3_port = 80;
  s3_hostname = "";
  webconsole_port = 8888;
  framework_image = "quobyte/quobyte-mesos:latest";
  client_image = "";
  public_slave_role = "";
  autodetect_service_ip = true;
  client_mount_point = "";
}
