-- ===== src/Tests/Events.antt =====
-- Tests of runs of events: services are launched, and the API's task fails.
use mesos_framework.Base.{
  ℕ, String, ◌+◌, ◌≤◌, ◌≡◌, ◌≢◌, refl, List, [], ◌∷◌, some, none, get_or, arith,
}
use mesos_framework.Base.Dict
use mesos_framework.Proto.{SchedulerState, NodeState, not_running}
use mesos_framework.Mesos.{Call, task_failed, task_killed, kill_task}
use mesos_framework.Base.Text.{rfind}
use mesos_framework.Scheduler.Status.{status_update, update_service}
use mesos_framework.Scheduler.State.{api, registry, create_host, get_service}
use mesos_framework.Scheduler.Services.{
  start_services, start_api, start_s3, start_console, start_client, start_devices, start_device,
  start_core, start_shared,
}
use mesos_framework.Scheduler.Services.Counts.{shared_state}
use mesos_framework.Scheduler.Policy.{do_start_service, is_terminal}
use mesos_framework.Scheduler.Task.{make_task}
use mesos_framework.Scheduler.Command.{mem_export, construct_docker_execute_command}
use mesos_framework.Scheduler.Memory.{mem_mb_from_resource_string}
use mesos_framework.Scheduler.Offers.{
  resource_offers, handle_offer, known_offer, offer_to_services, prober_is_due, probe_is_due,
  reconcile_host,
}
use mesos_framework.Scheduler.Offers.Singletons.{launches}
use mesos_framework.System.{System, Event, offers, update, request, run, handle}
use mesos_framework.System.Ends.{can_start, ends_of}
use mesos_framework.System.Hosts.{run-slave_id}
use mesos_framework.Scheduler.Probe.{framework_message}
use mesos_framework.System.Launches.{run-launches}
use mesos_framework.Tests.Updates.{a-NoDash}
use mathlib.Core.List.{Memᴰ}
use mesos_framework.Scheduler.State.Fields.{state_of}
use mesos_framework.Scheduler.Http.{missing, content}
use mesos_framework.System.Totality.{run-total}
use mesos_framework.Tests.Offers.{default_flags-IsReady}
use mesos_framework.System.Shutdown.{shutdown-stops}
use mesos_framework.Tests.{
  offer, flags, units, deployed, encode, node_a, up, two_offers, scheduler, status,
}
use mesos_framework.Tests.Runs.{decode}
use mesos_framework.Tests.Web.{cell-IsStorage, verbatim-IsFaithful, cell, verbatim, silent}
use mesos_framework.Tests.Life.{proxy_of}

abbrev events : List (Event ℕ)
events = offers two_offers ∷ update 1020 (status "quobyte-api-a" task_failed) ∷ []

abbrev before : System SchedulerState ℕ
before = record { proxy = proxy_of deployed; scheduler = scheduler (up "quobyte-registry-a") }

abbrev afterwards : System SchedulerState ℕ × List (Call ℕ)
afterwards = get_or (before, []) (run cell verbatim flags units encode decode silent events before)

events-run :
    run cell verbatim flags units encode decode silent events before
    ≡ some (afterwards.0, afterwards.1)
unfolding run handle resource_offers handle_offer known_offer prober_is_due probe_is_due
    offer_to_services start_services start_api start_s3 start_console start_client start_devices
    start_device start_core start_shared make_task construct_docker_execute_command do_start_service
    Dict.find reconcile_host mem_export mem_mb_from_resource_string Dict.modify
events-run = refl

api_launched : launches "quobyte-api" afterwards.1 ≡ 1
unfolding run handle resource_offers handle_offer known_offer prober_is_due probe_is_due
    offer_to_services start_services start_api start_s3 start_console start_client start_devices
    start_device start_core start_shared make_task construct_docker_execute_command do_start_service
    Dict.find reconcile_host mem_export mem_mb_from_resource_string Dict.modify status_update rfind
    get_service update_service is_terminal create_host
api_launched = refl

run-launches_example :
    launches "quobyte-api" afterwards.1 + can_start (shared_state api afterwards.0.scheduler)
    ≤ can_start (shared_state api before.scheduler) + ends_of api events
run-launches_example =
    run-launches cell verbatim flags units encode decode silent api refl events before afterwards.0
      afterwards.1 events-run

run-slave_id_example :
    (n' : NodeState) × (Dict.find "a" afterwards.0.scheduler.nodes ≡ some n')
    × (n'.slave_id_value ≡ "slave1")
    × (n'.hostname ≡ "a")
    × ((now : ℕ) (slave_id payload : String)
        → slave_id ≢ "slave1"
        → Dict.find "a" (framework_message decode now slave_id payload afterwards.0.scheduler).nodes
          ≡ some n')
unfolding Dict.find
run-slave_id_example =
    run-slave_id cell verbatim flags units encode decode silent events before afterwards.0
      afterwards.1 "a" (node_a (up "quobyte-registry-a")) events-run refl

-- The registry is shut down.
shutdown-stops_example :
    (sys' : System SchedulerState ℕ) × (calls : List (Call ℕ)) × (run cell verbatim flags units
        encode decode silent
        (request missing "POST" "/v1/version" ""
          ∷ offers ((1010, offer "o1" "a") ∷ [])
          ∷ update 1020 (status "quobyte-registry-a" task_killed)
          ∷ [])
        before
      ≡ some (sys', calls))
    × (sys'.proxy.state.target_version ≡ "")
    × Memᴰ (kill_task "quobyte-registry-a") calls
    × ((state_of registry "a" sys'.scheduler).state ≡ not_running)
unfolding Dict.find
shutdown-stops_example =
    shutdown-stops cell verbatim cell-IsStorage verbatim-IsFaithful flags units encode decode silent
      before missing "/v1/version" "o1" 8 "a" "slave1" 1010 1020 (node_a (up "quobyte-registry-a"))
      registry (status "quobyte-registry-a" task_killed) refl refl a-NoDash refl refl (omega arith)
      refl refl refl refl refl refl

-- The executor's archive is fetched, and a version is set.
abbrev all_events : List (Event ℕ)
all_events =
    request (content "jar") "GET" "/executor.tar.gz" ""
    ∷ request missing "POST" "/v1/version" "1.3"
    ∷ events

run-total_example : run cell verbatim flags units encode decode silent all_events before ≢ none
run-total_example =
    run-total cell verbatim cell-IsStorage verbatim-IsFaithful flags default_flags-IsReady units
      encode decode silent all_events before ((omega arith, omega arith), (tt, (tt, (tt, tt))))
