-- ===== src/Scheduler/Command.antt =====
-- scheduler/scheduler.cpp: the command that a service's container runs, and the text of the ports
-- that it asks for.
use Prim.Native.String.{◌++◌}
use mesos_framework.Base.{
  ℕ, ◌%◌, String, Bool, not, [], ◌∷◌, Option, none, some, ◌==◌, ◌>>=◌, eqb, if◌then◌else◌,
}
use mesos_framework.Base.Text.{is_empty, concat}
use mesos_framework.Base.Int.{negsuc, ◌-ℤ◌, show, show_ℤ, same_ℤ}
use mesos_framework.Flags.{Flags}
use mesos_framework.Scheduler.Memory.{mem_mb_from_resource_string}

-- A conversion to `uint16_t`.
abbrev pub u16 : ℕ → ℕ
u16 n = n % 65536

abbrev when : Bool → String → String
when b s = if b then s else ""

-- One export of a memory size, less the memory that the service keeps to itself. The resource
-- string is read only for the service that it belongs to.
unfoldable pub mem_export : Bool → String → String → ℕ → Option String
mem_export wanted variable resource_string extra_ram_mb = if not wanted then some "" else do
  mb ← mem_mb_from_resource_string resource_string
  some (concat (" && export " ∷ variable ∷ "=" ∷ show_ℤ (mb -ℤ extra_ram_mb) ∷ "m" ∷ []))

unfoldable pub construct_docker_execute_command : Flags → String → String → ℕ → ℕ → Option String
construct_docker_execute_command flags service_name host_name rpc_port http_port =
    if is_empty flags.registry_dns_name then none else do
      registry ←
          mem_export (service_name == "registry") "QUOBYTE_MAX_MEM_REGISTRY"
            flags.registry_resources flags.registry_extra_ram_mb
      metadata ←
          mem_export (service_name == "metadata") "QUOBYTE_MAX_MEM_METADATA"
            flags.metadata_resources flags.metadata_extra_ram_mb
      data_service ←
          mem_export (service_name == "data") "QUOBYTE_MAX_MEM_DATA" flags.data_resources 0
      api ← mem_export (service_name == "api") "QUOBYTE_MAX_MEM_API" flags.api_resources 0
      s3 ←
          mem_export (service_name == "s3") "QUOBYTE_MAX_MEM_S3" flags.s3_resources
            flags.s3_extra_ram_mb
      webconsole ←
          mem_export (service_name == "webconsole") "QUOBYTE_MAX_MEM_WEBCONSOLE"
            flags.webconsole_resources 0
      some (
          concat (
            "export QUOBYTE_SERVICE="
            ∷ service_name
            ∷ " && export QUOBYTE_REGISTRY="
            ∷ flags.registry_dns_name
            ∷ flags.mesos_dns_domain
            ∷ (if eqb rpc_port 0
                then " && export QUOBYTE_RPC_PORT=$PORT0"
                else " && export QUOBYTE_RPC_PORT=" ++ show rpc_port)
            ∷ (if eqb http_port 0
                then " && export QUOBYTE_HTTP_PORT=$PORT1"
                else " && export QUOBYTE_HTTP_PORT=" ++ show http_port)
            ∷ when (service_name == "api") (" && export QUOBYTE_API_PORT=" ++ show flags.api_port)
            ∷ when (service_name == "s3") (" && export QUOBYTE_S3_PORT=" ++ show flags.s3_port)
            ∷ when (service_name == "webconsole")
                (" && export QUOBYTE_WEBCONSOLE_PORT=" ++ show flags.webconsole_port)
            ∷ registry
            ∷ metadata
            ∷ data_service
            ∷ api
            ∷ s3
            ∷ when (service_name == "s3") (" && export QUOBYTE_S3_HOSTNAME=" ++ flags.s3_hostname)
            ∷ webconsole
            ∷ " && export DIG_LOOKUP=$(dig +short "
            ∷ host_name
            ∷ ")"
            ∷ when (not flags.autodetect_service_ip)
                (" && export HOST_IP=${DIG_LOOKUP:-" ++ (host_name ++ "}"))
            ∷ when (not (is_empty flags.extra_service_config))
                (" && export QUOBYTE_EXTRA_SERVICE_CONFIG=" ++ flags.extra_service_config)
            ∷ when (not (same_ℤ flags.service_debug_port (negsuc 0)))
                (" && export QUOBYTE_DEBUG_PORT=" ++ show_ℤ flags.service_debug_port)
            ∷ when flags.enable_assertions " && export QUOBYTE_ENABLE_ASSERTIONS=true"
            ∷ " && /opt/main.sh"
            ∷ []))

-- A range of one port, as in "80-80".
abbrev port_range : ℕ → String
port_range port = show port ++ ("-" ++ show port)

unfoldable pub build_resource_string : ℕ → ℕ → ℕ → String
build_resource_string rpc_port http_port extra_port = concat (
    "ports:["
    ∷ port_range rpc_port
    ∷ ","
    ∷ port_range http_port
    ∷ (if eqb extra_port 0 then "" else "," ++ port_range extra_port)
    ∷ "]"
    ∷ [])
