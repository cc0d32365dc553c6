-- ===== src/Main/Starting.antt =====
-- scheduler/quobyte-mesos.cpp: what a start finds of an earlier one.
use mesos_framework.Base.{
  String, ◌≡◌, refl, sym, subst, ◌∙◌, inl, inr, true, false, ◌&&◌, List, Option, some, arith,
  >>=-eq-some, Bool-cases,
}
use mesos_framework.Flags.{Flags}
use mesos_framework.Proto.{ProbeRequest, ProbeResponse}
use mesos_framework.Mesos.{Call, Credential, ResourceOps}
use mesos_framework.Scheduler.State.{Scheduler, quobyte_scheduler}
use mesos_framework.Scheduler.Page.{DebugText}
use mesos_framework.Scheduler.Proxy.{
  StateOps, IsStorage, TextFormat, IsFaithful, SchedulerStateProxy, open_proxy, erase,
}
use mesos_framework.HttpServer.Daemon
use mesos_framework.HttpServer.Daemon.{HttpServer, http_server}
use mesos_framework.System.{System, Event, run}
use mesos_framework.System.Storage.{run-IsStored}
use mesos_framework.Main.{
  ProcessFlags, Environment, Process, running, state_path, not_empty, framework_info, credential,
  run_framework, main,
}

-- What the driver's thread and the server's threads work on.
abbrev pub system_of {ℓ κ} : {S : Type ℓ} {R : Type κ} → Process S R → System S R
system_of p = record { proxy = p.proxy; scheduler = p.scheduler }

module _ {ℓ κ μ} {S : Type ℓ} {R : Type κ} {T : Type μ} (ops : StateOps S T) (format : TextFormat T)
    (flags : Flags) (resources : ResourceOps R) where
  open_proxy-fields :
      (storage : S) (path : String) (proxy : SchedulerStateProxy S)
      → open_proxy ops format storage path ≡ some proxy
      → (proxy.path ≡ path) × (proxy.storage ≡ storage)
  unfolding open_proxy
  open_proxy-fields storage path proxy e =
      let (state, parsed, made) = >>=-eq-some (format.parse (ops.fetch path storage)) _ e in
      (ground arith, ground arith)

  run_framework-running :
      (pf : ProcessFlags) (environment : Environment) (proxy : SchedulerStateProxy S)
      (p : Process S R)
      → run_framework ops format flags resources pf environment proxy ≡ some (running p)
      → (p.proxy ≡ proxy) × (quobyte_scheduler flags resources ≡ some p.scheduler)
  unfolding run_framework
  run_framework-running pf environment proxy p e =
      let (s, constructed, listens) = >>=-eq-some (quobyte_scheduler flags resources) _ e in
      let (http, started, wants) =
        >>=-eq-some (Daemon.start environment.port_is_free (http_server pf.port)) _ listens in
      let (wanted, given, made) = >>=-eq-some (credential pf environment.mesos_secret) _ wants in
      let same : (proxy ≡ p.proxy) × (s ≡ p.scheduler) = (ground arith, ground arith) in
      (rw same.0 refl, rw (← same.1) constructed)

  -- What a start that ends in a running driver has gone through.
  pub main-running :
      (pf : ProcessFlags) (environment : Environment) (storage : S) (p : Process S R)
      → main ops format flags resources pf environment storage ≡ some (running p)
      → ((not_empty pf.master && not_empty pf.zk) ≡ true)
        × (pf.reset ≡ false)
        × (open_proxy ops format storage (state_path pf) ≡ some p.proxy)
        × (quobyte_scheduler flags resources ≡ some p.scheduler)
  unfolding main
  main-running pf environment storage p e =
      elim (Bool-cases (not_empty pf.master && not_empty pf.zk)) [
        | inr bad ↦ absurd (ground arith)
        | inl valid ↦
            let found = rw valid at e in
            let (proxy, opened, rest) =
              >>=-eq-some (open_proxy ops format storage (state_path pf)) _ found in
            elim (Bool-cases pf.reset) [
              | inl resets ↦
                  let (erased, done, ends) =
                    >>=-eq-some (erase ops format proxy) _ (rw resets at rest) in
                  absurd (ground arith)
              | inr keeps ↦
                  let (same, constructed) =
                    run_framework-running pf environment proxy p (rw keeps at rest) in
                  (valid, keeps, rw same opened, constructed)
            ]
      ]

  -- A start on a storage whose state can be read, with flags that ask for no reset.
  main-run_framework :
      (pf : ProcessFlags) (environment : Environment) (storage : S) (proxy : SchedulerStateProxy S)
      → (not_empty pf.master && not_empty pf.zk) ≡ true
      → pf.reset ≡ false
      → open_proxy ops format storage (state_path pf) ≡ some proxy
      → main ops format flags resources pf environment storage
        ≡ run_framework ops format flags resources pf environment proxy
  unfolding main
  main-run_framework pf environment storage proxy valid keeps opened =
      rw (valid, opened, keeps) refl

  run_framework-total :
      (pf : ProcessFlags) (environment : Environment) (proxy : SchedulerStateProxy S)
      (s : Scheduler R) (wanted : Option Credential)
      → quobyte_scheduler flags resources ≡ some s
      → environment.port_is_free ≡ true
      → credential pf environment.mesos_secret ≡ some wanted
      → (p : Process S R) × (run_framework ops format flags resources pf environment proxy
          ≡ some (running p))
        × (p.proxy ≡ proxy)
        × (p.framework.id ≡ proxy.state.framework_id_value)
        × (p.scheduler ≡ s)
        × (p.driver_credential ≡ wanted)
  unfolding run_framework framework_info Daemon.start
  run_framework-total pf environment proxy s wanted constructed free given = (
    record {
      proxy = proxy;
      framework = framework_info pf environment proxy.state.framework_id_value;
      scheduler = s;
      http = record (http_server pf.port) { daemon = true };
      driver_credential = wanted;
    },
    rw (constructed, free, given) refl,
    refl,
    refl,
    refl,
    refl,
  )

  module _ (kept : IsStorage ops) (faithful : IsFaithful format)
      (encode_request : ProbeRequest → String) (decode_response : String → Option ProbeResponse)
      (debug : DebugText) where
    -- With a storage that keeps what is stored and a text format that reads what it prints: after any
    -- run of events that a started process handles without an abort, a later start with the same
    -- flags, a free port and a credential where one is wanted runs the driver again, with the state
    -- that the earlier process had last, its framework's id and its version to deploy, and with its
    -- scheduler as the earlier one started.
    pub main_restart :
        (pf : ProcessFlags) (environment later : Environment) (storage : S) (p : Process S R)
        (es : List (Event R)) (sys : System S R) (calls : List (Call R))
        (wanted : Option Credential)
        → main ops format flags resources pf environment storage ≡ some (running p)
        → run ops format flags resources encode_request decode_response debug es (system_of p)
          ≡ some (sys, calls)
        → later.port_is_free ≡ true
        → credential pf later.mesos_secret ≡ some wanted
        → (p' : Process S R) × (main ops format flags resources pf later sys.proxy.storage
            ≡ some (running p'))
          × (p'.proxy ≡ sys.proxy)
          × (p'.framework.id ≡ sys.proxy.state.framework_id_value)
          × (p'.scheduler ≡ p.scheduler)
          × (p'.driver_credential ≡ wanted)
    main_restart pf environment later storage p es sys calls wanted started ran free given =
        let (valid, keeps, opened, constructed) = main-running pf environment storage p started in
        let fields = open_proxy-fields storage (state_path pf) p.proxy opened in
        let before : open_proxy ops format p.proxy.storage (state_path pf) ≡ some p.proxy =
          subst (λ st. open_proxy ops format st (state_path pf) ≡ some p.proxy) (sym fields.1)
            opened in
        let (path, reopened) =
          run-IsStored ops format kept faithful flags resources encode_request decode_response debug
            (state_path pf) es (system_of p) sys calls ran (fields.0, before) in
        let (p', runs, same, named, hosts, given') =
          run_framework-total pf later sys.proxy p.scheduler wanted constructed free given in
        (
          p',
          main-run_framework pf later sys.proxy.storage sys.proxy valid keeps reopened ∙ runs,
          same,
          named,
          hosts,
          given',
        )
