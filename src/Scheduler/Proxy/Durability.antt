-- ===== src/Scheduler/Proxy/Durability.antt =====
-- scheduler/scheduler.cpp: the writes of `SchedulerStateProxy` and what is read back.
use mesos_framework.Base.{String, ◌≡◌, refl, Option, some}
use mesos_framework.Proto.{SchedulerState}
use mesos_framework.Scheduler.Proxy.{
  StateOps, IsStorage, TextFormat, IsFaithful, SchedulerStateProxy, cleared, open_proxy, writeback,
  set_framework_id, set_target_version, erase,
}

module _ {ℓ μ} {S : Type ℓ} {T : Type μ} (ops : StateOps S T) (storage : IsStorage ops)
    (format : TextFormat T) (faithful : IsFaithful format) where
  -- A proxy that is opened on what another has written is that proxy.
  abbrev pub IsDurable :
      SchedulerStateProxy S → SchedulerState → Option (SchedulerStateProxy S) → Type ℓ
  IsDurable proxy state result =
      (written : SchedulerStateProxy S) × (result ≡ some written)
      × (written.path ≡ proxy.path)
      × (written.state ≡ state)
      × (open_proxy ops format written.storage proxy.path ≡ some written)

  writeback-IsDurable :
      (proxy : SchedulerStateProxy S) → IsDurable proxy proxy.state (writeback ops format proxy)
  unfolding writeback open_proxy
  writeback-IsDurable proxy = (
    record proxy { storage = ops.store proxy.path (faithful.text proxy.state) proxy.storage },
    rw (faithful.prints proxy.state) refl,
    refl,
    refl,
    rw
        (
          storage.fetch-store proxy.path (faithful.text proxy.state) proxy.storage,
          faithful.parses proxy.state,
        )
        refl,
  )

  -- With a storage that keeps what is stored and a text format that reads what it prints: setting
  -- the version, setting the framework's id and erasing all do not abort, change just what they
  -- say, and write the state so that a proxy which is opened later reads it back.
  pub updates-IsDurable :
      (proxy : SchedulerStateProxy S) (v : String)
      → IsDurable proxy
          (record proxy.state { target_version = v })
          (set_target_version ops format v proxy)
        × IsDurable proxy
            (record proxy.state { framework_id_value = v })
            (set_framework_id ops format v proxy)
        × IsDurable proxy cleared (erase ops format proxy)
  unfolding set_target_version set_framework_id erase
  updates-IsDurable proxy v = (
    writeback-IsDurable (record proxy { state = record proxy.state { target_version = v } }),
    writeback-IsDurable (record proxy { state = record proxy.state { framework_id_value = v } }),
    writeback-IsDurable (record proxy { state = cleared }),
  )
