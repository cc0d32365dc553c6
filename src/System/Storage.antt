-- ===== src/System/Storage.antt =====
-- What the storage holds while events are handled.
use mesos_framework.Base.{
  String, ◌≡◌, ◌≢◌, inl, inr, List, [], ◌∷◌, Option, some, arith, >>=-eq-some, Bool-cases, ◌==◌,
  eq_iff,
}
use mesos_framework.Flags.{Flags}
use mesos_framework.Proto.{SchedulerState, ProbeRequest, ProbeResponse}
use mesos_framework.Mesos.{Call, ResourceOps}
use mesos_framework.Scheduler.State.{Scheduler}
use mesos_framework.Scheduler.Offers.{resource_offers}
use mesos_framework.Scheduler.Page.{DebugText}
use mesos_framework.Scheduler.Proxy.{
  StateOps, IsStorage, TextFormat, IsFaithful, SchedulerStateProxy, open_proxy, registered,
  set_framework_id, set_target_version,
}
use mesos_framework.Scheduler.Proxy.Durability.{IsDurable, updates-IsDurable}
use mesos_framework.Scheduler.Http.{Archive, is_version_path, handle_http, handle_version}
use mesos_framework.Scheduler.Http.Versions.{handle_http_read_only}
use mesos_framework.System.{System, Event, registration, offers, request, handle, run}

module _ {ℓ κ μ} {S : Type ℓ} {R : Type κ} {T : Type μ} (ops : StateOps S T) (format : TextFormat T)
    (storage : IsStorage ops) (faithful : IsFaithful format) (flags : Flags)
    (resources : ResourceOps R) (encode_request : ProbeRequest → String)
    (decode_response : String → Option ProbeResponse) (debug : DebugText) where
  -- A proxy that is opened on the storage is this one.
  abbrev pub IsStored : String → SchedulerStateProxy S → Type ℓ
  IsStored path proxy =
      (proxy.path ≡ path) × (open_proxy ops format proxy.storage path ≡ some proxy)

  IsDurable-IsStored :
      (path : String) (proxy proxy' : SchedulerStateProxy S) (state : SchedulerState)
      (result : Option (SchedulerStateProxy S))
      → IsDurable ops storage format faithful proxy state result
      → result ≡ some proxy'
      → proxy.path ≡ path
      → IsStored path proxy'
  IsDurable-IsStored path proxy proxy' state result (written, made, same_path, set, reopened) e p =
      let same : written ≡ proxy' = ground arith in rw (← same, ← p) (same_path, reopened)

  handle_http-IsStored :
      (archive : Archive) (method url body path : String) (s : Scheduler R)
      (proxy proxy' : SchedulerStateProxy S) (page : String)
      → handle_http ops format debug archive method url body s proxy ≡ some (proxy', page)
      → IsStored path proxy
      → IsStored path proxy'
  unfolding handle_http handle_version
  handle_http-IsStored archive method url body path s proxy proxy' page e h =
      elim (Bool-cases (is_version_path url)) [
        | inr other ↦
            rw
              (handle_http_read_only ops format debug archive s method url body proxy proxy' page
                (inr other) e)
              h
        | inl versions ↦ elim (Bool-cases (method == "POST")) [
          | inr reads ↦
              let not_post : method ≢ "POST" = ground (arith, eq_iff method "POST") in
              rw
                (handle_http_read_only ops format debug archive s method url body proxy proxy' page
                  (inl not_post) e)
                h
          | inl posts ↦
              let is_post : method ≡ "POST" = (eq_iff method "POST").0 posts in
              let set = (updates-IsDurable ops storage format faithful proxy body).0 in
              let posted = rw (is_post, versions) at e in
              let (written, made, rest) =
                >>=-eq-some (set_target_version ops format body proxy) _ posted in
              let same : written ≡ proxy' = ground arith in
              IsDurable-IsStored path proxy proxy' _ (set_target_version ops format body proxy) set
                (rw (← same) made) h.0
        ]
      ]

  pub handle-IsStored :
      (path : String) (e : Event R) (sys sys' : System S R) (calls : List (Call R))
      (page : Option String)
      → handle ops format flags resources encode_request decode_response debug e sys
        ≡ some (sys', calls, page)
      → IsStored path sys.proxy
      → IsStored path sys'.proxy
  unfolding handle registered
  handle-IsStored path (registration framework_id) sys sys' calls page e h =
      let (r, answered, rest) =
        >>=-eq-some (registered ops format {R = R} framework_id sys.proxy) _ e in
      let (written, made, ending) =
        >>=-eq-some (set_framework_id ops format framework_id sys.proxy) _ answered in
      let same : written ≡ sys'.proxy = ground arith in
      let set = (updates-IsDurable ops storage format faithful sys.proxy framework_id).1 in
      IsDurable-IsStored path sys.proxy sys'.proxy _
        (set_framework_id ops format framework_id sys.proxy) set (rw (← same) made) h.0
  handle-IsStored path (request archive method url body) sys sys' calls page e h =
      let (r, answered, rest) =
        >>=-eq-some (handle_http ops format debug archive method url body sys.scheduler sys.proxy) _
          e in
      let same : r.0 ≡ sys'.proxy = ground arith in
      rw (← same) (
        handle_http-IsStored archive method url body path sys.scheduler sys.proxy r.0 r.1 answered
          h)
  handle-IsStored path (offers os) sys sys' calls page e h =
      let (r, answered, rest) =
        >>=-eq-some
          (resource_offers flags resources sys.proxy.state encode_request os sys.scheduler) _ e in
      let same : sys.proxy ≡ sys'.proxy = ground arith in rw (← same) h
  handle-IsStored path _ sys sys' calls page e h =
      let same : sys.proxy ≡ sys'.proxy = ground arith in rw (← same) h

  pub run-IsStored :
      (path : String) (es : List (Event R)) (sys sys' : System S R) (calls : List (Call R))
      → run ops format flags resources encode_request decode_response debug es sys
        ≡ some (sys', calls)
      → IsStored path sys.proxy
      → IsStored path sys'.proxy
  unfolding run
  run-IsStored path [] sys sys' calls h stored =
      let same : sys.proxy ≡ sys'.proxy = ground arith in rw (← same) stored
  run-IsStored path (e ∷ es) sys sys' calls h stored =
      let (r, first, rest) =
        >>=-eq-some (handle ops format flags resources encode_request decode_response debug e sys) _
          h in
      let (r', others, closed) =
        >>=-eq-some (run ops format flags resources encode_request decode_response debug es r.0) _
          rest in
      let same : r'.0 ≡ sys' = ground arith in
      rw (← same) (
        run-IsStored path es r.0 r'.0 r'.1 others
          (handle-IsStored path e sys r.0 r.1 r.2 first stored))
