-- ===== src/System/Totality.antt =====
-- When the scheduler's process does not end on its own.
use Prim.Native.String.{len}
use mesos_framework.Base.{
  ◌<◌, arith, String, ◌≢◌, ◌&&◌, inl, inr, List, [], ◌∷◌, Option, none, All, Bool-cases, ◌==◌,
}
use mesos_framework.Flags.{Flags}
use mesos_framework.Proto.{ProbeRequest, ProbeResponse}
use mesos_framework.Mesos.{ResourceOps}
use mesos_framework.Scheduler.Names.{archive_url, health_url}
use mesos_framework.Scheduler.State.{Scheduler}
use mesos_framework.Scheduler.Offers.Readiness.{IsReady, bind-total, resource_offers-total}
use mesos_framework.Scheduler.Page.{DebugText}
use mesos_framework.Scheduler.Proxy.{
  StateOps, IsStorage, TextFormat, IsFaithful, SchedulerStateProxy, registered,
}
use mesos_framework.Scheduler.Proxy.Durability.{updates-IsDurable}
use mesos_framework.Scheduler.Http.{
  Archive, missing, unreadable, content, read_archive, is_version_path, handle_http, handle_version,
}
use mesos_framework.System.{System, Event, registration, offers, request, handle, run}

-- The executor's archive is missing, or it can be read, is not empty and is smaller than 100 MiB.
abbrev pub IsServable : Archive → Type 0
IsServable missing = Unit
IsServable unreadable = ⊥
IsServable (content text) = (0 < len text) × (len text < 104857600)

-- Where a request comes, the archive can be served.
abbrev pub ServesArchive {ℓ} : {R : Type ℓ} → Event R → Type 0
ServesArchive (request archive method path body) = IsServable archive
ServesArchive _ = Unit

read_archive-total : (archive : Archive) → IsServable archive → read_archive archive ≢ none
unfolding read_archive
read_archive-total missing h = λ e. cc
read_archive-total unreadable h = absurd h
read_archive-total (content text) (filled, fits) = ground arith

module _ {ℓ κ μ} {S : Type ℓ} {R : Type κ} {T : Type μ} (ops : StateOps S T) (format : TextFormat T)
    (storage : IsStorage ops) (faithful : IsFaithful format) (flags : Flags) (ready : IsReady flags)
    (resources : ResourceOps R) (encode_request : ProbeRequest → String)
    (decode_response : String → Option ProbeResponse) (debug : DebugText) where
  handle_version-total :
      (method body : String) (proxy : SchedulerStateProxy S)
      → handle_version ops format method body proxy ≢ none
  unfolding handle_version
  handle_version-total method body proxy =
      let (written, set, same_path, state, reopened) =
        (updates-IsDurable ops storage format faithful proxy body).0 in
      elim (Bool-cases (method == "POST")) [
        | inl posts ↦ rw (posts, set) (λ e. cc)
        | inr other ↦ rw other (λ e. cc)
      ]

  handle_http-total :
      (archive : Archive) (method path body : String) (s : Scheduler R)
      (proxy : SchedulerStateProxy S)
      → IsServable archive
      → handle_http ops format debug archive method path body s proxy ≢ none
  unfolding handle_http
  handle_http-total archive method path body s proxy found =
      elim (Bool-cases (method == "GET" && path == archive_url)) [
        | inl wants ↦ rw wants (bind-total _ _ (read_archive-total archive found) (λ page e. cc))
        | inr other ↦ elim (Bool-cases (is_version_path path)) [
          | inl versions ↦ rw (other, versions) (handle_version-total method body proxy)
          | inr page ↦ elim (Bool-cases (method == "GET" && path == health_url)) [
            | inl health ↦ rw (other, page, health) (λ e. cc)
            | inr rest ↦ elim (Bool-cases (method == "GET" && path == "/")) [
              | inl root ↦ rw (other, page, rest, root) (λ e. cc)
              | inr nothing ↦ rw (other, page, rest, nothing) (λ e. cc)
            ]
          ]
        ]
      ]

  handle-total :
      (e : Event R) (sys : System S R)
      → ServesArchive e
      → handle ops format flags resources encode_request decode_response debug e sys ≢ none
  unfolding handle registered
  handle-total (registration framework_id) sys found =
      let (written, set, same_path, state, reopened) =
        (updates-IsDurable ops storage format faithful sys.proxy framework_id).1 in
      rw set (λ e. cc)
  handle-total (offers os) sys found =
      bind-total _ _
        (resource_offers-total flags ready resources sys.proxy.state encode_request os
          sys.scheduler)
        (λ r e. cc)
  handle-total (request archive method path body) sys found =
      bind-total _ _ (handle_http-total archive method path body sys.scheduler sys.proxy found)
        (λ r e. cc)
  handle-total _ sys found = λ e. cc

  -- With a storage that keeps what is stored, a text format that reads what it prints, flags that
  -- name a registry and an image for the prober and whose memory sizes fit an `int`, and, at each
  -- request, an archive of the executor that is missing or that can be read, is not empty and is
  -- smaller than 100 MiB: the process does not abort, over any run of events.
  pub run-total :
      (es : List (Event R)) (sys : System S R)
      → All ServesArchive es
      → run ops format flags resources encode_request decode_response debug es sys ≢ none
  unfolding run
  run-total [] sys found = λ e. cc
  run-total (e ∷ es) sys (first, rest) =
      bind-total _ _ (handle-total e sys first)
        (λ r. bind-total _ _ (run-total es r.0 rest) (λ r' e. cc))
