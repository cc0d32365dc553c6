-- ===== src/Tests/Life.antt =====
-- Tests of the life of the scheduler's process.
use mesos_framework.Base.{get_or, ℕ, ◌≡◌, refl, true, List, [], ◌∷◌, none, some}
use mesos_framework.Proto.{SchedulerState}
use mesos_framework.Mesos.{Call, reconcile_tasks, task_running}
use mesos_framework.Scheduler.State.{quobyte_scheduler}
use mesos_framework.Scheduler.Proxy.{SchedulerStateProxy, open_proxy, registered}
use mesos_framework.Scheduler.Http.{missing, handle_http}
use mesos_framework.HttpServer.Daemon
use mesos_framework.HttpServer.Daemon.{http_server}
use mesos_framework.System.{System, Event, registration, request, update, handle, run}
use mesos_framework.Base.Dict
use mesos_framework.Main.{
  ProcessFlags, default_process_flags, Environment, Process, Outcome, main, framework_info,
  credential,
}
use mesos_framework.Main.Starting.{system_of, main_restart}
use mesos_framework.Tests.{flags, units, deployed, encode, status}
use mesos_framework.Tests.Runs.{decode, initial}
use mesos_framework.Tests.Web.{cell, cell-IsStorage, verbatim, verbatim-IsFaithful, silent}

abbrev process_flags : ProcessFlags
process_flags = record default_process_flags { master = "m:5050"; zk = "z:2181" }

abbrev environment : Environment
environment = record { hostname = "h"; mesos_secret = none; port_is_free = true }

abbrev pub proxy_of : SchedulerState → SchedulerStateProxy SchedulerState
proxy_of d = record { storage = d; path = "scheduler-default"; state = d }

abbrev process : Process SchedulerState ℕ
process = record {
  proxy = proxy_of deployed;
  framework = framework_info process_flags environment "f1";
  scheduler = initial;
  http = record { daemon = true; port = 7888 };
  driver_credential = none;
}

-- The master gives the framework another id, and a new version is set.
abbrev events : List (Event ℕ)
events = registration "f2" ∷ request missing "POST" "/v1/version" "1.3" ∷ []

abbrev later : SchedulerState
later = record { framework_id_value = "f2"; target_version = "1.3" }

abbrev afterwards : System SchedulerState ℕ
afterwards = record { proxy = proxy_of later; scheduler = initial }

process-running :
    main cell verbatim flags units process_flags environment deployed
    ≡ some (Outcome.running process)
unfolding main quobyte_scheduler Daemon.start open_proxy http_server
process-running = refl

events-run :
    run cell verbatim flags units encode decode silent events (system_of process)
    ≡ some (afterwards, reconcile_tasks [] ∷ [])
unfolding run handle registered handle_http
events-run = refl

main_restart_example :
    (p : Process SchedulerState ℕ) × (main cell verbatim flags units process_flags environment later
      ≡ some (Outcome.running p))
    × (p.proxy ≡ proxy_of later)
    × (p.framework.id ≡ "f2")
    × (p.scheduler ≡ initial)
    × (p.driver_credential ≡ none)
unfolding credential
main_restart_example =
    main_restart cell verbatim flags units cell-IsStorage verbatim-IsFaithful encode decode silent
      process_flags environment environment deployed process events afterwards
      (reconcile_tasks [] ∷ []) none process-running events-run refl refl

-- A registry that is up is reported to the new process.
abbrev reported : List (Event ℕ)
reported = update 1020 (status "quobyte-registry-a" task_running) ∷ []

abbrev after_report : System SchedulerState ℕ × List (Call ℕ)
after_report =
    get_or (system_of process, [])
      (run cell verbatim flags units encode decode silent reported (system_of process))
