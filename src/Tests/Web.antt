-- ===== src/Tests/Web.antt =====
-- Tests of the HTTP server, of the page's handlers and of the storage.
use mesos_framework.Base.{true, String, ◌≡◌, refl, ◌≢◌, inl, [], ◌∷◌, none, some, All, ◌>>=◌}
use mesos_framework.Proto.{SchedulerState}
use mesos_framework.Scheduler.Page.{DebugText}
use mesos_framework.Scheduler.Proxy.{
  StateOps, IsStorage, TextFormat, IsFaithful, SchedulerStateProxy, cleared, set_framework_id,
  set_target_version, erase,
}
use mesos_framework.Scheduler.Proxy.Durability.{IsDurable, updates-IsDurable}
use mesos_framework.Scheduler.Http.{missing, handle_http}
use mesos_framework.Scheduler.Http.Versions.{handle_http_read_only, handle_http_version}
use mesos_framework.HttpServer.{respond, serve}
use mesos_framework.HttpServer.Uploads.{serve_upload}
use mesos_framework.Requests.{dispatcher, serve_version}
use mesos_framework.Tests.{deployed, down, scheduler}

-- A storage of one variable, which holds a message as it is.
abbrev pub cell : StateOps SchedulerState SchedulerState
cell = record { fetch = λ path st. st; store = λ path v st. v }

pub cell-IsStorage : IsStorage cell
cell-IsStorage = record { fetch-store = λ path v st. refl }

abbrev pub verbatim : TextFormat SchedulerState
verbatim = record { print = some; parse = some }

pub verbatim-IsFaithful : IsFaithful verbatim
verbatim-IsFaithful = record { text = λ d. d; prints = λ d. refl; parses = λ d. refl }

abbrev pub silent : DebugText
silent = record { scheduler_state = λ d. ""; service_state = λ d. ""; node_state = λ d. "" }

abbrev proxy : SchedulerStateProxy SchedulerState
proxy = record { storage = deployed; path = "/quobyte"; state = deployed }

filled : All {A = String} (λ part. part ≢ "") ("1." ∷ "3" ∷ [])
filled = ((λ e. cc), ((λ e. cc), tt))

updates-IsDurable_example :
    IsDurable cell cell-IsStorage verbatim verbatim-IsFaithful proxy
      (record deployed { target_version = "1.3" })
      (set_target_version cell verbatim "1.3" proxy)
    × IsDurable cell cell-IsStorage verbatim verbatim-IsFaithful proxy
        (record deployed { framework_id_value = "1.3" })
        (set_framework_id cell verbatim "1.3" proxy)
    × IsDurable cell cell-IsStorage verbatim verbatim-IsFaithful proxy cleared
        (erase cell verbatim proxy)
updates-IsDurable_example =
    updates-IsDurable cell cell-IsStorage verbatim verbatim-IsFaithful proxy "1.3"

handle_http_version_example :
    (proxy' : SchedulerStateProxy SchedulerState) × (handle_http cell verbatim silent missing "POST"
        "/v1/version" "1.3"
        (scheduler down)
        proxy
      ≡ some (proxy', "1.3"))
    × (proxy'.state ≡ record deployed { target_version = "1.3" })
    × (handle_http cell verbatim silent missing "GET" "/v1/version" "" (scheduler down) proxy'
        ≡ some (proxy', "1.3"))
handle_http_version_example =
    handle_http_version cell verbatim silent missing (scheduler down) cell-IsStorage
      verbatim-IsFaithful "/v1/version" "1.3" "" proxy refl

handle_http_read_only_example : proxy ≡ proxy
unfolding handle_http
handle_http_read_only_example =
    handle_http_read_only cell verbatim silent missing (scheduler down) "GET" "/v1/version" "" proxy
      proxy "1.2" (inl (λ e. cc)) refl

serve_upload_example :
    serve
      (dispatcher cell verbatim silent missing (scheduler down))
      "/v1/version"
      "POST"
      ("" ∷ "1." ∷ "3" ∷ "" ∷ [])
      proxy
      (record { post_data = none; response = none })
    ≡ (dispatcher cell verbatim silent missing (scheduler down) "POST" "/v1/version" "1.3" proxy
        >>= λ r. some (
          r.0,
          record {
            post_data = some "1.3";
            response = some (
                respond
                  (dispatcher cell verbatim silent missing (scheduler down))
                  "/v1/version"
                  r.1);
          },
        ))
serve_upload_example =
    serve_upload (dispatcher cell verbatim silent missing (scheduler down)) "/v1/version"
      ("1." ∷ "3" ∷ []) proxy filled

-- The version comes in two parts.
serve_version_example :
    (proxy' : SchedulerStateProxy SchedulerState) × (proxy'.state
      ≡ record deployed { target_version = "1.3" })
    × (serve
          (dispatcher cell verbatim silent missing (scheduler down))
          "/v1/version"
          "POST"
          ("" ∷ "1." ∷ "3" ∷ "" ∷ [])
          proxy
          (record { post_data = none; response = none })
        ≡ some (proxy', record { post_data = some "1.3"; response = some (true, "1.3") }))
serve_version_example =
    serve_version cell verbatim silent missing (scheduler down) cell-IsStorage verbatim-IsFaithful
      "/v1/version" ("1." ∷ "3" ∷ []) proxy refl filled
