-- ===== src/System/Refinement.antt =====
-- The events against the step relation of Scheduler/Runs.
use mesos_framework.Base.{
  String, ◌≡◌, ◌⊎◌, inl, inr, List, [], ◌∷◌, Option, some, arith, >>=-eq-some,
}
use mesos_framework.Flags.{Flags}
use mesos_framework.Proto.{ProbeRequest, ProbeResponse}
use mesos_framework.Mesos.{Call, ResourceOps}
use mesos_framework.Scheduler.State.{Scheduler}
use mesos_framework.Scheduler.Offers.{resource_offers}
use mesos_framework.Scheduler.Runs.{Step, Reachable}
use mesos_framework.Scheduler.Runs
use mesos_framework.Scheduler.Page.{DebugText}
use mesos_framework.Scheduler.Proxy.{StateOps, TextFormat, registered}
use mesos_framework.Scheduler.Http.{handle_http}
use mesos_framework.System.{
  System, Event, registration, offers, update, message, request, handle, run,
}

module _ {ℓ κ μ} {S : Type ℓ} {R : Type κ} {T : Type μ} (ops : StateOps S T) (format : TextFormat T)
    (flags : Flags) (resources : ResourceOps R) (encode_request : ProbeRequest → String)
    (decode_response : String → Option ProbeResponse) (debug : DebugText) where
  -- What an event does to the scheduler's own state.
  abbrev pub Refines : Scheduler R → Scheduler R → Type κ
  Refines s s' = (s' ≡ s) ⊎ Step flags resources encode_request decode_response s s'

  pub handle-Refines :
      (e : Event R) (sys sys' : System S R) (calls : List (Call R)) (page : Option String)
      → handle ops format flags resources encode_request decode_response debug e sys
        ≡ some (sys', calls, page)
      → Refines sys.scheduler sys'.scheduler
  unfolding handle
  handle-Refines (offers os) sys sys' calls page h =
      let (r, answered, rest) =
        >>=-eq-some
          (resource_offers flags resources sys.proxy.state encode_request os sys.scheduler) _ h in
      let after : r.0 ≡ sys'.scheduler = ground arith in
      inr (Runs.offers sys.proxy.state os r.1 (rw (← after) answered))
  handle-Refines (update now status) sys sys' calls page h =
      inr (Runs.update sys.proxy.state now status (ground arith))
  handle-Refines (message now slave_id payload) sys sys' calls page h =
      inr (Runs.message now slave_id payload (ground arith))
  handle-Refines (registration framework_id) sys sys' calls page h =
      let (r, wrote, rest) =
        >>=-eq-some (registered ops format {R = R} framework_id sys.proxy) _ h in
      inl (ground arith)
  handle-Refines (request archive method path body) sys sys' calls page h =
      let (r, answered, rest) =
        >>=-eq-some (handle_http ops format debug archive method path body sys.scheduler sys.proxy)
          _ h in
      inl (ground arith)
  handle-Refines _ sys sys' calls page h = inl (ground arith)

  -- A run of events that does not abort is a run of the step relation: from a state that the
  -- scheduler can be in, it leads to a state that the scheduler can be in.
  pub run-Reachable :
      (es : List (Event R)) (sys sys' : System S R) (calls : List (Call R))
      → run ops format flags resources encode_request decode_response debug es sys
        ≡ some (sys', calls)
      → Reachable flags resources encode_request decode_response sys.scheduler
      → Reachable flags resources encode_request decode_response sys'.scheduler
  unfolding run
  run-Reachable [] sys sys' calls h reached =
      let same : sys.scheduler ≡ sys'.scheduler = ground arith in rw (← same) reached
  run-Reachable (e ∷ es) sys sys' calls h reached =
      let (r, first, rest) =
        >>=-eq-some (handle ops format flags resources encode_request decode_response debug e sys) _
          h in
      let (r', others, closed) =
        >>=-eq-some (run ops format flags resources encode_request decode_response debug es r.0) _
          rest in
      let same : r'.0 ≡ sys' = ground arith in
      rw (← same) (
        run-Reachable es r.0 r'.0 r'.1 others (elim (handle-Refines e sys r.0 r.1 r.2 first) [
          | inl kept ↦ rw kept reached
          | inr step ↦ Runs.next reached step
        ]))
