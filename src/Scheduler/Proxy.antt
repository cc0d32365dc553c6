-- ===== src/Scheduler/Proxy.antt =====
-- scheduler/scheduler.cpp: `SchedulerStateProxy`, the part of the state that ZooKeeper keeps, and
-- the registration with the master, which writes it.
pub mod Durability
use mesos_framework.Base.{String, List, [], ◌∷◌, Option, none, some, ◌≡◌, ◌>>=◌}
use mesos_framework.Proto.{SchedulerState}
use mesos_framework.Mesos.{Call, reconcile_tasks}

-- `mesos::state::State` with values of type `T`, the serialized text: the value of a variable, and
-- the storage after a variable is stored.
pub record StateOps {ℓ κ} (S : Type ℓ) (T : Type κ) : Type (ℓ ⊔ κ) where
  pub fetch : String → S → T
  pub store : String → T → S → S

-- A stored variable is fetched again.
pub record IsStorage {ℓ κ} {S : Type ℓ} {T : Type κ} (ops : StateOps S T) : Type (ℓ ⊔ κ) where
  pub fetch-store : (path : String) (v : T) (st : S) → ops.fetch path (ops.store path v st) ≡ v

-- `google::protobuf::TextFormat`; `none` is a failure.
pub record TextFormat {κ} (T : Type κ) : Type κ where
  pub print : SchedulerState → Option T
  pub parse : T → Option SchedulerState

-- Every message prints, and what is printed parses to the message.
pub record IsFaithful {κ} {T : Type κ} (format : TextFormat T) : Type κ where
  pub text : SchedulerState → T
  pub prints : (d : SchedulerState) → format.print d ≡ some (text d)
  pub parses : (d : SchedulerState) → format.parse (text d) ≡ some d

-- The storage is shared with the other users of it, so the methods return its new state too.
pub record SchedulerStateProxy {ℓ} (S : Type ℓ) : Type ℓ where
  pub storage : S
  pub path : String
  pub state : SchedulerState

abbrev pub cleared : SchedulerState
cleared = record { framework_id_value = ""; target_version = "" }

module _ {ℓ μ} {S : Type ℓ} {T : Type μ} (ops : StateOps S T) (format : TextFormat T) where
  -- The constructor: a text that does not parse ends the process.
  unfoldable pub open_proxy : S → String → Option (SchedulerStateProxy S)
  open_proxy storage path = do
    parsed ← format.parse (ops.fetch path storage)
    some (record { storage = storage; path = path; state = parsed })

  unfoldable pub writeback : SchedulerStateProxy S → Option (SchedulerStateProxy S)
  writeback proxy = do
    serialized ← format.print proxy.state
    some (record proxy { storage = ops.store proxy.path serialized proxy.storage })

  unfoldable pub set_framework_id : String → SchedulerStateProxy S → Option (SchedulerStateProxy S)
  unfolding writeback
  set_framework_id id proxy =
      writeback (record proxy { state = record proxy.state { framework_id_value = id } })

  unfoldable pub set_target_version :
      String → SchedulerStateProxy S → Option (SchedulerStateProxy S)
  unfolding writeback
  set_target_version version proxy =
      writeback (record proxy { state = record proxy.state { target_version = version } })

  unfoldable pub erase : SchedulerStateProxy S → Option (SchedulerStateProxy S)
  unfolding writeback
  erase proxy = writeback (record proxy { state = cleared })

  -- `QuobyteScheduler::registered`; an empty list asks for all tasks.
  unfoldable pub registered {κ} :
      {R : Type κ} → String → SchedulerStateProxy S → Option (SchedulerStateProxy S × List (Call R))
  unfolding set_framework_id
  registered framework_id proxy = do
    proxy' ← set_framework_id framework_id proxy
    some (proxy', reconcile_tasks [] ∷ [])

unfoldable pub reregistered {κ} : {R : Type κ} → List (Call R)
reregistered = reconcile_tasks [] ∷ []
