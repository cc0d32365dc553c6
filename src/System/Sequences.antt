-- ===== src/System/Sequences.antt =====
-- Runs of events, one event at a time.
use mathlib.Core.List.{append_assoc}
use mesos_framework.Base.{
  ℕ, String, ◌≡◌, refl, sym, ◌∙◌, ap, List, [], ◌∷◌, ◌++◌, Option, none, some, arith, >>=-eq-some,
}
use mesos_framework.Flags.{Flags}
use mesos_framework.Proto.{ProbeRequest, ProbeResponse}
use mesos_framework.Mesos.{TaskStatus, Offer, Call, ResourceOps}
use mesos_framework.Scheduler.State.{Scheduler}
use mesos_framework.Scheduler.Offers.{handle_offer}
use mesos_framework.Scheduler.Status.{status_update}
use mesos_framework.Scheduler.Probe.{framework_message}
use mesos_framework.Scheduler.Progress.Offers.{IsAllowed, one_offer}
use mesos_framework.Scheduler.Page.{DebugText}
use mesos_framework.Scheduler.Proxy.{StateOps, TextFormat}
use mesos_framework.System.{System, Event, offers, update, message, handle, run}

module _ {ℓ κ μ} {S : Type ℓ} {R : Type κ} {T : Type μ} (ops : StateOps S T) (format : TextFormat T)
    (flags : Flags) (resources : ResourceOps R) (encode_request : ProbeRequest → String)
    (decode_response : String → Option ProbeResponse) (debug : DebugText) where
  abbrev pub Runs : List (Event R) → System S R → System S R → List (Call R) → Type (ℓ ⊔ κ)
  Runs es sys sys' calls =
      run ops format flags resources encode_request decode_response debug es sys
      ≡ some (sys', calls)

  pub run-∷ :
      (e : Event R) (es : List (Event R)) (sys sys' sys'' : System S R) (calls more : List (Call R))
      (page : Option String)
      → handle ops format flags resources encode_request decode_response debug e sys
        ≡ some (sys', calls, page)
      → Runs es sys' sys'' more
      → Runs (e ∷ es) sys sys'' (calls ++ more)
  unfolding run
  run-∷ e es sys sys' sys'' calls more page first rest = rw (first, rest) refl

  -- One offer, and what the events after it do.
  pub run-offer :
      (now : ℕ) (offer : Offer R) (es : List (Event R)) (sys sys' : System S R) (s : Scheduler R)
      (calls more : List (Call R))
      → IsAllowed flags offer.hostname
      → handle_offer flags resources sys.proxy.state encode_request now offer sys.scheduler
        ≡ some (s, calls)
      → Runs es (record sys { scheduler = s }) sys' more
      → Runs (offers ((now, offer) ∷ []) ∷ es) sys sys' ((calls ++ []) ++ more)
  unfolding handle
  run-offer now offer es sys sys' s calls more allowed answered rest =
      run-∷ _ es sys (record sys { scheduler = s }) sys' (calls ++ []) more none
        (rw
          (one_offer flags resources sys.proxy.state encode_request now offer allowed sys.scheduler
            s calls answered)
          refl)
        rest

  pub run-update :
      (now : ℕ) (status : TaskStatus) (es : List (Event R)) (sys sys' : System S R)
      (more : List (Call R))
      → Runs es
          (record sys { scheduler = (status_update sys.proxy.state now status sys.scheduler).0 })
          sys'
          more
      → Runs
          (update now status ∷ es)
          sys
          sys'
          ((status_update sys.proxy.state now status sys.scheduler).1 ++ more)
  unfolding handle
  run-update now status es sys sys' more rest = run-∷ _ es sys _ sys' _ more none refl rest

  pub run-message :
      (now : ℕ) (slave_id payload : String) (es : List (Event R)) (sys sys' : System S R)
      (more : List (Call R))
      → Runs es
          (record sys {
            scheduler = framework_message decode_response now slave_id payload sys.scheduler;
          })
          sys'
          more
      → Runs (message now slave_id payload ∷ es) sys sys' more
  unfolding handle
  run-message now slave_id payload es sys sys' more rest =
      run-∷ _ es sys _ sys' [] more none refl rest

  pub run-append :
      (es fs : List (Event R)) (sys sys' sys'' : System S R) (calls more : List (Call R))
      → Runs es sys sys' calls
      → Runs fs sys' sys'' more
      → Runs (es ++ fs) sys sys'' (calls ++ more)
  unfolding run
  run-append [] fs sys sys' sys'' calls more h k =
      let same : sys ≡ sys' = ground arith in
      let none_made : [] ≡ calls = ground arith in rw (same, ← none_made) k
  run-append (e ∷ es) fs sys sys' sys'' calls more h k =
      let (r, first, rest) =
        >>=-eq-some (handle ops format flags resources encode_request decode_response debug e sys) _
          h in
      let (r', others, closed) =
        >>=-eq-some (run ops format flags resources encode_request decode_response debug es r.0) _
          rest in
      let same : r'.0 ≡ sys' = ground arith in
      let made : r.1 ++ r'.1 ≡ calls = ground arith in
      run-∷ e (es ++ fs) sys r.0 sys'' r.1 (r'.1 ++ more) r.2 first
        (run-append es fs r.0 r'.0 sys'' r'.1 more others (rw same k))
      ∙ ap (λ cs. some (sys'', cs)) (sym (append_assoc r.1 r'.1 more) ∙ ap (λ cs. cs ++ more) made)
