-- ===== src/Scheduler/Http.antt =====
-- scheduler/scheduler.cpp: `handleHTTP`. The page that it renders is in Page.antt.
pub mod Versions
use Prim.Native.String.{len}
use text.Mathlib.Text.{find?}
use mesos_framework.Base.{
  ℕ, String, Bool, true, false, not, ◌&&◌, List, [], ◌∷◌, Option, none, some, ◌==◌, ◌>>=◌, eqb, ltb,
  if◌then◌else◌, any,
}
use mesos_framework.Base.Text.{is_empty, concat}
use mesos_framework.Base.Int.{show}
use mesos_framework.Base.Dict.{Dict}
use mesos_framework.Proto.{
  DeviceType, same_type, ServiceTaskState, unknown, not_running, starting, running, ServiceState,
  NodeState, SchedulerState, is_running,
}
use mesos_framework.Scheduler.Names.{archive_url, version_api_url, health_url}
use mesos_framework.Scheduler.State.{Scheduler}
use mesos_framework.Scheduler.Status.{has_type}
use mesos_framework.Scheduler.Probe.{count_running_services}
use mesos_framework.Scheduler.Proxy.{StateOps, TextFormat, SchedulerStateProxy, set_target_version}
use mesos_framework.Scheduler.Page.{DebugText, render_page}

-- What opening and reading the executor's archive gives.
pub data Archive : Type 0 where
  missing unreadable : Archive
  content : String → Archive

abbrev buffer_size : ℕ
buffer_size = 104857600

-- At most the buffer's size is read; an empty file and one that fills the buffer end the process.
unfoldable pub read_archive : Archive → Option String
read_archive missing = some ""
read_archive unreadable = none
read_archive (content s) = if not (eqb (len s) 0) && ltb (len s) buffer_size then some s else none

abbrev pub is_at_start : Option ℕ → Bool
is_at_start (some p) = eqb p 0
is_at_start none = false

-- `path.find(kVersionAPIUrl) == 0`
abbrev pub is_version_path : String → Bool
is_version_path path = is_at_start (find? path version_api_url)

module _ {ℓ μ} {S : Type ℓ} {T : Type μ} (ops : StateOps S T) (format : TextFormat T) where
  abbrev answer : SchedulerStateProxy S → Option String → Option (SchedulerStateProxy S × String)
  answer proxy page = page >>= λ text. some (proxy, text)

  -- `/v1/version`
  unfoldable pub handle_version :
      String → String → SchedulerStateProxy S → Option (SchedulerStateProxy S × String)
  unfolding set_target_version
  handle_version method body proxy =
      if method == "POST"
      then (set_target_version ops format body proxy >>= λ proxy'.
          some (proxy', proxy'.state.target_version))
      else some (proxy, proxy.state.target_version)

  unfoldable pub handle_http {κ} :
      {R : Type κ} (debug : DebugText) (archive : Archive) (method path body : String)
      → Scheduler R
      → SchedulerStateProxy S
      → Option (SchedulerStateProxy S × String)
  unfolding handle_version read_archive count_running_services render_page
  handle_http debug archive method path body s proxy =
      if method == "GET" && path == archive_url
      then answer proxy (read_archive archive)
      else (if is_version_path path
          then handle_version method body proxy
          else (if method == "GET" && path == health_url
              then some
                  (proxy, concat ("OK. Running services: " ∷ show (count_running_services s) ∷ []))
              else (if method == "GET" && path == "/"
                  then some (proxy, render_page debug proxy.state s)
                  else some (proxy, ""))))
