-- ===== src/Scheduler/Page.antt =====
-- scheduler/scheduler.cpp: the status page of `handleHTTP`.
use mesos_framework.Base.{String, Bool, not, ◌&&◌, [], ◌∷◌, if◌then◌else◌}
use mesos_framework.Base.Text.{is_empty, concat}
use mesos_framework.Base.Dict.{Dict}
use mesos_framework.Proto.{
  DeviceType, ServiceTaskState, unknown, not_running, starting, running, ServiceState, NodeState,
  SchedulerState, is_running,
}
use mesos_framework.Scheduler.State.{Scheduler}
use mesos_framework.Scheduler.Status.{has_type}

-- `DebugString` of the messages of common/quobyte.proto.
pub record DebugText : Type 0 where
  pub scheduler_state : SchedulerState → String
  pub service_state : ServiceState → String
  pub node_state : NodeState → String

-- The name of the enum's value.
abbrev pub state_name : ServiceTaskState → String
state_name unknown = "UNKNOWN"
state_name not_running = "NOT_RUNNING"
state_name starting = "STARTING"
state_name running = "RUNNING"

abbrev device_msg : NodeState → String
device_msg node = if node.device_types_valid then "no device" else "waiting for prober"

unfoldable pub render_service : String → Bool → NodeState → ServiceState → String
render_service name has_device node service = concat (
    "<tr><td>"
    ∷ name
    ∷ ": </td><td>"
    ∷ (if has_device then "found" else device_msg node)
    ∷ " <span title=\""
    ∷ service.last_message
    ∷ "\" "
    ∷ (if has_device && not (is_running service.state)
        then "style='background-color: yellow'"
        else "")
    ∷ ">\n"
    ∷ state_name service.state
    ∷ "</span>"
    ∷ "</td></tr>\n"
    ∷ [])

module _ (debug : DebugText) where
  -- The row of a service that all hosts share.
  abbrev shared_row : String → ServiceState → String
  shared_row name service = concat (
      "<tr class='hostbox'><td>"
      ∷ name
      ∷ ": </td><td>"
      ∷ state_name service.state
      ∷ " "
      ∷ service.task_id
      ∷ "<div class=\"details\"><pre>"
      ∷ debug.service_state service
      ∷ "</pre></div></td></tr>"
      ∷ [])

  unfoldable pub render_nodes : Dict NodeState → String
  unfolding render_service
  render_nodes [] = ""
  render_nodes ((hostname, node) ∷ nodes) = concat (
      "<div class='hostbox' style=\"display: inline-block; border: 1px solid lightgray; padding: 3px; margin: 3px\"><h3>"
      ∷ hostname
      ∷ "<div class=\"details\"><pre>"
      ∷ debug.node_state node
      ∷ "</pre></div>"
      ∷ "</h3>"
      ∷ "<table><tbody>"
      ∷ render_service "Registry" (has_type DeviceType.registry node) node node.registry
      ∷ render_service "Data" (has_type DeviceType.data_device node) node node.data_service
      ∷ render_service "Metadata" (has_type DeviceType.metadata node) node node.metadata
      ∷ "</table></tbody>"
      ∷ "</div>\n"
      ∷ render_nodes nodes
      ∷ [])

  unfoldable pub render_page {ℓ} : {R : Type ℓ} → SchedulerState → Scheduler R → String
  unfolding render_nodes
  render_page persisted s = concat (
      "<html><head>"
      ∷ "<style>.details { display: none; } .hostbox:hover .details { display:block; position:absolute; background:#fafafa; border: 2px solid lightgray; }</style>"
      ∷ "</head><body style='font-family: sans-serif'>"
      ∷ "<h1><img style='vertical-align:middle; padding:3px' src=\"http://www.quobyte.com/favicon-128.png\" width=\"60\">Quobyte Mesos Framework Scheduler</h1>\n"
      ∷ "<table><tbody>"
      ∷ "<tr><td>Deployed container version:</td><td>"
      ∷ (if is_empty persisted.target_version
          then "No version to deploy (set via REST API)"
          else persisted.target_version)
      ∷ "<div class=\"details\">"
      ∷ debug.scheduler_state persisted
      ∷ "</div></td></tr>"
      ∷ shared_row "API" s.api_state
      ∷ shared_row "S3" s.s3_state
      ∷ shared_row "Console" s.console_state
      ∷ "</tbody></table>\n\n"
      ∷ render_nodes s.nodes
      ∷ "</body></html>"
      ∷ [])
