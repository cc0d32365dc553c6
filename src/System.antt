-- ===== src/System.antt =====
-- The scheduler's process while the Mesos driver runs: the callbacks of scheduler/scheduler.hpp and
-- the requests that scheduler/http_server.cpp hands over, on the state that they share.
pub mod Refinement
pub mod Storage
pub mod Ends
pub mod Launches
pub mod Hosts
pub mod Shutdown
pub mod Totality
pub mod Sequences
pub mod Watching
pub mod Serving
pub mod Bootstrap
use mesos_framework.Base.{ℕ, String, List, [], ◌∷◌, ◌++◌, Option, none, some, ◌>>=◌}
use mesos_framework.Flags.{Flags}
use mesos_framework.Proto.{SchedulerState, ProbeRequest, ProbeResponse}
use mesos_framework.Mesos.{TaskStatus, Offer, Call, ResourceOps}
use mesos_framework.Scheduler.State.{Scheduler}
use mesos_framework.Scheduler.Offers.{resource_offers}
use mesos_framework.Scheduler.Status.{status_update}
use mesos_framework.Scheduler.Probe.{framework_message}
use mesos_framework.Scheduler.Callbacks.{
  disconnected, slave_lost, error, offer_rescinded, executor_lost,
}
use mesos_framework.Scheduler.Page.{DebugText}
use mesos_framework.Scheduler.Proxy.{
  StateOps, TextFormat, SchedulerStateProxy, registered, reregistered,
}
use mesos_framework.Scheduler.Http.{Archive, handle_http}

-- What the callbacks and the requests work on.
pub record System {ℓ κ} (S : Type ℓ) (R : Type κ) : Type (ℓ ⊔ κ) where
  pub proxy : SchedulerStateProxy S
  pub scheduler : Scheduler R

-- One call of a callback or of the dispatcher, with the time where it is read.
pub data Event {ℓ} (R : Type ℓ) : Type ℓ where
  registration : String → Event R
  reregistration disconnection : Event R
  failure : String → Event R
  offers : List (ℕ × Offer R) → Event R
  rescission : String → Event R
  update : ℕ → TaskStatus → Event R
  message : ℕ → (slave_id payload : String) → Event R
  lost_slave : String → Event R
  lost_executor : (executor_id slave_id : String) → ℕ → Event R
  request : Archive → (method path body : String) → Event R

module _ {ℓ κ μ} {S : Type ℓ} {R : Type κ} {T : Type μ} (ops : StateOps S T) (format : TextFormat T)
    (flags : Flags) (resources : ResourceOps R) (encode_request : ProbeRequest → String)
    (decode_response : String → Option ProbeResponse) (debug : DebugText) where
  -- The state afterwards, the calls of the driver, and the page where there was a request.
  unfoldable pub handle : Event R → System S R → Option (System S R × List (Call R) × Option String)
  unfolding disconnected slave_lost error offer_rescinded executor_lost reregistered
  handle (registration framework_id) sys =
      registered ops format framework_id sys.proxy >>= λ (proxy, calls).
      some (record sys { proxy = proxy }, calls, none)
  handle reregistration sys = some (sys, reregistered, none)
  handle disconnection sys = some (record sys { scheduler = disconnected sys.scheduler }, [], none)
  handle (failure text) sys = some (record sys { scheduler = error text sys.scheduler }, [], none)
  handle (offers os) sys =
      resource_offers flags resources sys.proxy.state encode_request os sys.scheduler
      >>= λ (s, calls). some (record sys { scheduler = s }, calls, none)
  handle (rescission offer_id) sys =
      some (record sys { scheduler = offer_rescinded offer_id sys.scheduler }, [], none)
  handle (update now status) sys =
      let (s, calls) = status_update sys.proxy.state now status sys.scheduler in
      some (record sys { scheduler = s }, calls, none)
  handle (message now slave_id payload) sys = some (
    record sys { scheduler = framework_message decode_response now slave_id payload sys.scheduler },
    [],
    none,
  )
  handle (lost_slave slave_id) sys =
      some (record sys { scheduler = slave_lost slave_id sys.scheduler }, [], none)
  handle (lost_executor executor_id slave_id status) sys =
      some (
        record sys { scheduler = executor_lost executor_id slave_id status sys.scheduler },
        [],
        none,
      )
  handle (request archive method path body) sys =
      handle_http ops format debug archive method path body sys.scheduler sys.proxy
      >>= λ (proxy, page). some (record sys { proxy = proxy }, [], some page)

  -- A sequence of events; `none` is the end of the process.
  unfoldable pub run : List (Event R) → System S R → Option (System S R × List (Call R))
  run [] sys = some (sys, [])
  run (e ∷ es) sys = handle e sys >>= λ r. run es r.0 >>= λ (sys', calls). some (sys', r.1 ++ calls)
