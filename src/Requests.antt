-- ===== src/Requests.antt =====
-- scheduler/quobyte-mesos.cpp: the HTTP server of scheduler/http_server.cpp with the scheduler's
-- `handleHTTP` as its dispatcher.
use Prim.Native.String.{◌++◌ as append}
use mesos_framework.Base.{
  false, ap, arith, eq_iff, ◌==◌, if◌then◌else◌, String, ◌≡◌, ◌≢◌, ◌∙◌, true, List, [], ◌∷◌, ◌++◌,
  Option, none, some, All,
}
use mesos_framework.Base.Text.{concat}
use mesos_framework.Scheduler.State.{Scheduler}
use mesos_framework.Scheduler.Page.{DebugText}
use mesos_framework.Scheduler.Proxy.{
  StateOps, IsStorage, TextFormat, IsFaithful, SchedulerStateProxy,
}
use mesos_framework.Scheduler.Http.{Archive, is_version_path, handle_http}
use mesos_framework.Scheduler.Http.Versions.{handle_http_version}
use mesos_framework.HttpServer.{respond, serve}
use mesos_framework.HttpServer.Uploads.{serve_upload}

-- `true` stands for 200, `false` for 404.
respond_page {ℓ} :
    {State : Type ℓ} (dispatch : String → String → String → State → Option (State × String))
    (url page : String)
    → respond dispatch url page
      ≡ (if page == "" then (false, append "Not found: " url) else (true, page))
respond_page dispatch url page = ground (arith, eq_iff page "")

module _ {ℓ κ μ} {S : Type ℓ} {R : Type κ} {T : Type μ} (ops : StateOps S T) (format : TextFormat T)
    (debug : DebugText) (archive : Archive) (s : Scheduler R) where
  -- The dispatcher that `main` binds.
  abbrev pub dispatcher :
      String → String → String → SchedulerStateProxy S → Option (SchedulerStateProxy S × String)
  dispatcher method url body proxy = handle_http ops format debug archive method url body s proxy

  -- With a storage that keeps what is stored and a text format that reads what it prints: a
  -- version that is posted to the version's path in any number of parts, none of them empty, is
  -- set as a whole, and the response is 200 with the version as its page. Where the version is
  -- empty, it is set too, but the response is 404.
  pub serve_version :
      (storage : IsStorage ops) (faithful : IsFaithful format) (url : String) (parts : List String)
      (proxy : SchedulerStateProxy S)
      → is_version_path url ≡ true
      → All (λ part. part ≢ "") parts
      → (proxy' : SchedulerStateProxy S) × (proxy'.state
          ≡ record proxy.state { target_version = concat parts })
        × (serve dispatcher url "POST"
              ("" ∷ parts ++ "" ∷ [])
              proxy
              (record { post_data = none; response = none })
            ≡ some (
              proxy',
              record {
                post_data = some (concat parts);
                response = some (
                    if concat parts == ""
                    then (false, append "Not found: " url)
                    else (true, concat parts));
              },
            ))
  serve_version storage faithful url parts proxy h filled =
      let (proxy', posted, state, later) =
        handle_http_version ops format debug archive s storage faithful url (concat parts) "" proxy
          h in
      (
        proxy',
        state,
        serve_upload dispatcher url parts proxy filled
            ∙ rw posted (
                ap
                  (λ r.
                    some (proxy', record { post_data = some (concat parts); response = some r }))
                  (respond_page dispatcher url (concat parts))),
      )
