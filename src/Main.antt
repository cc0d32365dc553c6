-- ===== src/Main.antt =====
-- scheduler/quobyte-mesos.cpp: the scheduler's process, up to the run of the Mesos driver, and its
-- end; executor/quobyte-mesos-executor.cpp: the exit code of the executor's process.
pub mod Starting
pub mod Tracked
use Prim.Native.String.{◌++◌}
use mesos_framework.Base.{
  ℕ, String, Bool, true, false, not, ◌&&◌, List, [], ◌∷◌, Option, none, some, ◌>>=◌, if◌then◌else◌,
}
use mesos_framework.Base.Text.{is_empty, concat}
use mesos_framework.Base.Int.{show}
use mesos_framework.Flags.{Flags}
use mesos_framework.Proto.{SchedulerState}
use mesos_framework.Mesos.{FrameworkInfo, Credential, ResourceOps}
use mesos_framework.Scheduler.State.{Scheduler, quobyte_scheduler}
use mesos_framework.Scheduler.Proxy.{StateOps, TextFormat, SchedulerStateProxy, open_proxy, erase}
use mesos_framework.HttpServer.Daemon
use mesos_framework.HttpServer.Daemon.{HttpServer, http_server}

-- The flags of this file.
pub record ProcessFlags : Type 0 where
  pub master : String
  pub zk : String
  pub zk_path : String
  pub port : ℕ
  pub failover_timeout_s : ℕ
  pub deployment : String
  pub framework_url : String
  pub framework_name : String
  pub framework_user : String
  pub framework_role : String
  pub framework_principal : String
  pub reset : Bool

abbrev pub default_process_flags : ProcessFlags
default_process_flags = record {
  master = "";
  zk = "";
  zk_path = "/quobyte";
  port = 7888;
  failover_timeout_s = 86400;
  deployment = "default";
  framework_url = "";
  framework_name = "quobyte";
  framework_user = "";
  framework_role = "*";
  framework_principal = "*";
  reset = false;
}

-- What the process finds: the host's name, the secret among the environment's variables, and
-- whether the port is free.
pub record Environment : Type 0 where
  pub hostname : String
  pub mesos_secret : Option String
  pub port_is_free : Bool

-- The validator of --master and of --zk.
unfoldable pub not_empty : String → Bool
not_empty value = not (is_empty value)

abbrev pub state_path : ProcessFlags → String
state_path flags = "scheduler-" ++ flags.deployment

unfoldable pub framework_info : ProcessFlags → Environment → String → FrameworkInfo
framework_info flags environment framework_id = record {
  user = flags.framework_user;
  name = flags.framework_name;
  role = flags.framework_role;
  principal = flags.framework_principal;
  failover_timeout = flags.failover_timeout_s;
  id = framework_id;
  webui_url =
      if is_empty flags.framework_url
      then concat ("http://" ∷ environment.hostname ∷ ":" ∷ show flags.port ∷ [])
      else flags.framework_url;
  checkpoint = true;
}

-- A secret needs a principal; without one the process ends. Outside: no credential is wanted.
unfoldable pub credential : ProcessFlags → Option String → Option (Option Credential)
credential flags none = some none
credential flags (some secret) =
    if is_empty flags.framework_principal
    then none
    else some (some (record { principal = flags.framework_principal; secret = secret }))

-- The process when it hands over to the Mesos driver.
pub record Process {ℓ κ} (S : Type ℓ) (R : Type κ) : Type (ℓ ⊔ κ) where
  pub proxy : SchedulerStateProxy S
  pub framework : FrameworkInfo
  pub scheduler : Scheduler R
  pub http : HttpServer
  pub driver_credential : Option Credential

-- The process ends with an exit code, or the driver runs.
pub data Outcome {ℓ κ} (S : Type ℓ) (R : Type κ) : Type (ℓ ⊔ κ) where
  exited : ℕ → S → Outcome S R
  running : Process S R → Outcome S R

module _ {ℓ κ μ} {S : Type ℓ} {R : Type κ} {T : Type μ} (ops : StateOps S T) (format : TextFormat T)
    (flags : Flags) (resources : ResourceOps R) where
  -- The part behind the opening of the state, where nothing is to be erased.
  unfoldable pub run_framework :
      ProcessFlags → Environment → SchedulerStateProxy S → Option (Outcome S R)
  unfolding credential framework_info
  run_framework process_flags environment proxy = do
    let framework = framework_info process_flags environment proxy.state.framework_id_value
    scheduler ← quobyte_scheduler flags resources
    http ← Daemon.start environment.port_is_free (http_server process_flags.port)
    wanted ← credential process_flags environment.mesos_secret
    some (
        running (record {
          proxy = proxy;
          framework = framework;
          scheduler = scheduler;
          http = http;
          driver_credential = wanted;
        }))

  -- `main`, from the storage as it is found; a flag that is not valid ends the process with code 1.
  unfoldable pub main : ProcessFlags → Environment → S → Option (Outcome S R)
  unfolding not_empty run_framework
  main process_flags environment storage =
      if not (not_empty process_flags.master && not_empty process_flags.zk)
      then some (exited 1 storage)
      else (open_proxy ops format storage (state_path process_flags) >>= λ proxy.
          if process_flags.reset
          then (erase ops format proxy >>= λ erased. some (exited 0 erased.storage))
          else run_framework process_flags environment proxy)

-- The exit code once the driver has returned, and the server afterwards; both processes map the
-- status in this way.
unfoldable pub exit_code : Bool → ℕ
exit_code driver_stopped = if driver_stopped then 0 else 1

unfoldable pub executor_main : Bool → ℕ
unfolding exit_code
executor_main driver_stopped = exit_code driver_stopped

unfoldable pub finish {ℓ κ} : {S : Type ℓ} {R : Type κ} → Bool → Process S R → ℕ × HttpServer
unfolding exit_code
finish driver_stopped process = (exit_code driver_stopped, Daemon.stop process.http)
