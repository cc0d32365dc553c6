-- ===== src/System/Launches.antt =====
-- How often the services that all hosts share are launched while events are handled.
use mesos_framework.Base.{
  ℕ, ◌+◌, ◌≤◌, String, ◌≡◌, refl, inl, inr, true, List, [], ◌∷◌, ◌++◌, Option, some, arith,
  >>=-eq-some, Ensures-eq_some,
}
use mesos_framework.Flags.{Flags}
use mesos_framework.Proto.{not_running, running, ServiceState, ProbeRequest, ProbeResponse}
use mesos_framework.Mesos.{Call, reconcile_tasks, ResourceOps}
use mesos_framework.Scheduler.State.{Scheduler, Service, api, s3, is_shared}
use mesos_framework.Scheduler.State.Fields.{task_name}
use mesos_framework.Scheduler.Services.Counts.{shared_state}
use mesos_framework.Scheduler.Offers.{resource_offers}
use mesos_framework.Scheduler.Offers.Singletons.{
  launches, launches-append, Launches, resource_offers-Launches,
}
use mesos_framework.Scheduler.Status.{status_update}
use mesos_framework.Scheduler.Probe.{framework_message}
use mesos_framework.Scheduler.Page.{DebugText}
use mesos_framework.Scheduler.Proxy.{StateOps, TextFormat, registered, set_framework_id}
use mesos_framework.Scheduler.Http.{handle_http}
use mesos_framework.System.Ends.{
  can_start, ends_of, status_update-can_start, status_update-launches,
}
use mesos_framework.System.{
  System, Event, registration, reregistration, offers, update, message, request, handle, run,
}

can_start-stopped : (v : ServiceState) → v.state ≡ not_running → can_start v ≡ 1
can_start-stopped v h = rw h refl

can_start-running : (v : ServiceState) → v.state ≡ running → can_start v ≡ 0
can_start-running v h = rw h refl

module _ {ℓ κ μ} {S : Type ℓ} {R : Type κ} {T : Type μ} (ops : StateOps S T) (format : TextFormat T)
    (flags : Flags) (resources : ResourceOps R) (encode_request : ProbeRequest → String)
    (decode_response : String → Option ProbeResponse) (debug : DebugText) (service : Service)
    (shared : is_shared service ≡ true) where
  -- What is left to launch, and what has been launched.
  abbrev left : System S R → ℕ
  left sys = can_start (shared_state service sys.scheduler)

  abbrev IsPaid : ℕ → System S R → System S R → List (Call R) → Type 0
  IsPaid ended sys sys' calls = launches (task_name service) calls + left sys' ≤ left sys + ended

  Launches-IsPaid :
      (s s' : Scheduler R) (calls : List (Call R))
      → Launches service s (s', calls)
      → launches (task_name service) calls + can_start (shared_state service s')
        ≤ can_start (shared_state service s) + 0
  Launches-IsPaid s s' calls (inl (same, none_made)) = rw (same, none_made) (omega arith)
  Launches-IsPaid s s' calls (inr (stopped, runs, one)) = rw one (
      omega (
        arith,
        can_start-stopped (shared_state service s) stopped,
        can_start-running (shared_state service s') runs,
      ))

  shared_state-message :
      (now : ℕ) (slave_id payload : String) (s : Scheduler R)
      → shared_state service (framework_message decode_response now slave_id payload s)
        ≡ shared_state service s
  unfolding framework_message
  shared_state-message now slave_id payload s = go service
    where
      go :
          (service : Service)
          → shared_state service (framework_message decode_response now slave_id payload s)
            ≡ shared_state service s
      go api = refl
      go s3 = refl
      go _ = refl

  handle-IsPaid :
      (e : Event R) (sys sys' : System S R) (calls : List (Call R)) (page : Option String)
      → handle ops format flags resources encode_request decode_response debug e sys
        ≡ some (sys', calls, page)
      → IsPaid (ends_of service (e ∷ [])) sys sys' calls
  unfolding handle registered
  handle-IsPaid (offers os) sys sys' calls page h =
      let (r, answered, rest) =
        >>=-eq-some
          (resource_offers flags resources sys.proxy.state encode_request os sys.scheduler) _ h in
      let after : r.0 ≡ sys'.scheduler = ground arith in
      let made : r.1 ≡ calls = ground arith in
      rw (← after, ← made)
        (Launches-IsPaid sys.scheduler r.0 r.1 (
          Ensures-eq_some (Launches service sys.scheduler)
            (resource_offers flags resources sys.proxy.state encode_request os sys.scheduler) r
            (resource_offers-Launches flags resources sys.proxy.state encode_request service shared
              os sys.scheduler)
            answered))
  handle-IsPaid (update now status) sys sys' calls page h =
      let r = status_update sys.proxy.state now status sys.scheduler in
      let after : r.0 ≡ sys'.scheduler = ground arith in
      let made : r.1 ≡ calls = ground arith in
      rw (← after, ← made, status_update-launches sys.proxy.state now status sys.scheduler _)
        (omega
          (arith, status_update-can_start sys.proxy.state now status service sys.scheduler shared))
  handle-IsPaid (message now slave_id payload) sys sys' calls page h =
      let after : framework_message decode_response now slave_id payload sys.scheduler
          ≡ sys'.scheduler =
        ground arith in
      let made : [] ≡ calls = ground arith in
      rw (← after, ← made, shared_state-message now slave_id payload sys.scheduler) (omega arith)
  handle-IsPaid (registration framework_id) sys sys' calls page h =
      let (r, wrote, rest) =
        >>=-eq-some (registered ops format {R = R} framework_id sys.proxy) _ h in
      let (written, set, ending) =
        >>=-eq-some (set_framework_id ops format framework_id sys.proxy) _ wrote in
      let same : sys.scheduler ≡ sys'.scheduler = ground arith in
      let made : reconcile_tasks [] ∷ [] ≡ calls = ground arith in rw (← same, ← made) (omega arith)
  handle-IsPaid (request archive method path body) sys sys' calls page h =
      let (r, answered, rest) =
        >>=-eq-some (handle_http ops format debug archive method path body sys.scheduler sys.proxy)
          _ h in
      let same : sys.scheduler ≡ sys'.scheduler = ground arith in
      let made : [] ≡ calls = ground arith in rw (← same, ← made) (omega arith)
  handle-IsPaid reregistration sys sys' calls page h =
      let same : sys.scheduler ≡ sys'.scheduler = ground arith in
      let made : reconcile_tasks [] ∷ [] ≡ calls = ground arith in rw (← same, ← made) (omega arith)
  handle-IsPaid _ sys sys' calls page h =
      let same : sys.scheduler ≡ sys'.scheduler = ground arith in
      let made : [] ≡ calls = ground arith in rw (← same, ← made) (omega arith)

  ends_of-∷ :
      (e : Event R) (es : List (Event R))
      → ends_of service (e ∷ es) ≡ ends_of service (e ∷ []) + ends_of service es
  ends_of-∷ (update now status) es = omega arith
  ends_of-∷ _ es = omega arith

  -- Over a run of events that does not abort, the API, S3 and the console are each launched at most
  -- once, if known not to run at the start, and once more for each update that reports the end of
  -- one of the service's tasks, on whatever host; and once less, if known not to run at the end.
  pub run-launches :
      (es : List (Event R)) (sys sys' : System S R) (calls : List (Call R))
      → run ops format flags resources encode_request decode_response debug es sys
        ≡ some (sys', calls)
      → launches (task_name service) calls + can_start (shared_state service sys'.scheduler)
        ≤ can_start (shared_state service sys.scheduler) + ends_of service es
  unfolding run
  run-launches [] sys sys' calls h =
      let same : sys.scheduler ≡ sys'.scheduler = ground arith in
      let made : [] ≡ calls = ground arith in rw (← same, ← made) (omega arith)
  run-launches (e ∷ es) sys sys' calls h =
      let (r, first, rest) =
        >>=-eq-some (handle ops format flags resources encode_request decode_response debug e sys) _
          h in
      let (r', others, closed) =
        >>=-eq-some (run ops format flags resources encode_request decode_response debug es r.0) _
          rest in
      let same : r'.0.scheduler ≡ sys'.scheduler = ground arith in
      let made : r.1 ++ r'.1 ≡ calls = ground arith in
      rw (← same, ← made, launches-append (task_name service) r.1 r'.1, ends_of-∷ e es)
        (omega (arith, handle-IsPaid e sys r.0 r.1 r.2 first, run-launches es r.0 r'.0 r'.1 others))
