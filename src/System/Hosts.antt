-- ===== src/System/Hosts.antt =====
-- What is known of a host, over runs of events.
use mesos_framework.Base.{
  ℕ, String, ◌≡◌, ◌≢◌, refl, sym, ◌∙◌, List, [], ◌∷◌, Option, some, arith, ◌==◌, eq_iff,
  >>=-eq-some, inl, inr, false,
}
use mesos_framework.Base.Dict
use mesos_framework.Flags.{Flags}
use mesos_framework.Proto.{NodeState, ProbeRequest, ProbeResponse}
use mesos_framework.Mesos.{Call, ResourceOps}
use mesos_framework.Scheduler.Keeping.Hosts.{
  SameHost-found, SameHosts, SameHosts-trans, Step-SameHosts, SameHost-refl,
}
use mesos_framework.Scheduler.Probe.{framework_message}
use mesos_framework.Scheduler.Probe.Responses.{find-framework_message}
use mesos_framework.Scheduler.Page.{DebugText}
use mesos_framework.Scheduler.Proxy.{StateOps, TextFormat}
use mesos_framework.System.{System, Event, handle, run}
use mesos_framework.System.Refinement.{handle-Refines}

module _ {ℓ κ μ} {S : Type ℓ} {R : Type κ} {T : Type μ} (ops : StateOps S T) (format : TextFormat T)
    (flags : Flags) (resources : ResourceOps R) (encode_request : ProbeRequest → String)
    (decode_response : String → Option ProbeResponse) (debug : DebugText) where
  handle-SameHosts :
      (e : Event R) (sys sys' : System S R) (calls : List (Call R)) (page : Option String)
      → handle ops format flags resources encode_request decode_response debug e sys
        ≡ some (sys', calls, page)
      → SameHosts sys.scheduler sys'.scheduler
  handle-SameHosts e sys sys' calls page h =
      elim (handle-Refines ops format flags resources encode_request decode_response debug e sys
        sys' calls page h) [
          | inl kept ↦ λ hostname. rw kept (SameHost-refl (Dict.find hostname sys.scheduler.nodes))
          | inr step ↦
              Step-SameHosts flags resources encode_request decode_response sys.scheduler
                sys'.scheduler step
        ]

  run-SameHosts :
      (es : List (Event R)) (sys sys' : System S R) (calls : List (Call R))
      → run ops format flags resources encode_request decode_response debug es sys
        ≡ some (sys', calls)
      → SameHosts sys.scheduler sys'.scheduler
  unfolding run
  run-SameHosts [] sys sys' calls h hostname =
      let same : sys.scheduler ≡ sys'.scheduler = ground arith in
      rw same (SameHost-refl (Dict.find hostname sys'.scheduler.nodes))
  run-SameHosts (e ∷ es) sys sys' calls h hostname =
      let (r, first, rest) =
        >>=-eq-some (handle ops format flags resources encode_request decode_response debug e sys) _
          h in
      let (r', others, closed) =
        >>=-eq-some (run ops format flags resources encode_request decode_response debug es r.0) _
          rest in
      let same : r'.0.scheduler ≡ sys'.scheduler = ground arith in
      rw (← same) (
        SameHosts-trans sys.scheduler r.0.scheduler r'.0.scheduler
          (handle-SameHosts e sys r.0 r.1 r.2 first) (run-SameHosts es r.0 r'.0 r'.1 others)
          hostname)

  -- A host that is known is never forgotten, and it keeps its name and the id of the slave that it
  -- was first seen with: over any run of events that does not abort, whatever slave its offers and
  -- updates name. After the run, a message of the prober from any other slave leaves the host as it
  -- is.
  pub run-slave_id :
      (es : List (Event R)) (sys sys' : System S R) (calls : List (Call R)) (hostname : String)
      (n : NodeState)
      → run ops format flags resources encode_request decode_response debug es sys
        ≡ some (sys', calls)
      → Dict.find hostname sys.scheduler.nodes ≡ some n
      → (n' : NodeState) × (Dict.find hostname sys'.scheduler.nodes ≡ some n')
        × (n'.slave_id_value ≡ n.slave_id_value)
        × (n'.hostname ≡ n.hostname)
        × ((now : ℕ) (slave_id payload : String)
            → slave_id ≢ n.slave_id_value
            → Dict.find hostname
                (framework_message decode_response now slave_id payload sys'.scheduler).nodes
              ≡ some n')
  run-slave_id es sys sys' calls hostname n h known =
      let kept = rw known at (run-SameHosts es sys sys' calls h hostname) in
      let (n', found, on_slave, named) =
        SameHost-found n (Dict.find hostname sys'.scheduler.nodes) kept in
      (
        n',
        found,
        on_slave,
        named,
        λ now slave_id payload other.
            let differs : n'.slave_id_value ≢ slave_id = λ e. other (sym e ∙ on_slave) in
            let not_mine : (n'.slave_id_value == slave_id) ≡ false =
              ground (arith, eq_iff n'.slave_id_value slave_id, differs) in
            find-framework_message decode_response now slave_id payload hostname sys'.scheduler
            ∙ rw (found, not_mine) refl,
      )
