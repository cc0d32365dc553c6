-- ===== src/Scheduler/Status/Routing.antt =====
-- scheduler/scheduler.cpp: how `statusUpdate` takes a task's id apart.
use Prim.Native.String.{◌++◌}
use text.Mathlib.TextLemmas.{append_assoc}
use mesos_framework.Base.{ℕ, String, ◌≡◌, refl, sym, ap, ◌∙◌, []}
use mesos_framework.Base.Text.{NoDash, rfind-append, substr-append_left, substr_from-append}
use mesos_framework.Proto.{SchedulerState}
use mesos_framework.Mesos.{TaskStatus}
use mesos_framework.Scheduler.Names.{id_on}
use mesos_framework.Scheduler.State.{Scheduler, Service, create_host, get_service}
use mesos_framework.Scheduler.State.Fields.{task_name, get_service-task_name, get_service-dash}
use mesos_framework.Scheduler.Status.{update_service, update_found, update_at, status_update}

module _ {ℓ} {R : Type ℓ} (persisted : SchedulerState) (now : ℕ) (status : TaskStatus)
    (s : Scheduler R) where
  -- The id is cut at its last dash, whatever stands before it.
  cut_at_last_dash :
      (name hostname : String)
      → status.task_id ≡ id_on name hostname
      → NoDash hostname
      → status_update persisted now status s
        ≡ update_found persisted now status hostname
            (get_service name)
            (create_host hostname status.slave_id s)
  unfolding status_update update_at
  cut_at_last_dash name hostname e h = rw (
    e,
    rfind-append name hostname h,
    update_at,
    e,
    substr-append_left name hostname,
    substr_from-append name hostname,
  )

  -- The status of a task of a known service, on a host whose name has no dash, updates that
  -- service of that host, which gets a node first if it has none.
  pub status_update-update_service :
      (service : Service) (hostname : String)
      → status.task_id ≡ id_on (task_name service) hostname
      → NoDash hostname
      → status_update persisted now status s
        ≡ update_service persisted now status hostname service
            (create_host hostname status.slave_id s)
  unfolding update_found
  status_update-update_service service hostname e h =
      cut_at_last_dash (task_name service) hostname e h ∙ rw (get_service-task_name service) refl

  -- The status of a task of a host whose name has a dash is lost: whatever it reports, no call is
  -- made, and all that happens is that the part of the name behind the last dash gets a node, if it
  -- has none.
  pub status_update_dash :
      (service : Service) (left right : String)
      → status.task_id ≡ id_on (task_name service) (left ++ ("-" ++ right))
      → NoDash right
      → status_update persisted now status s ≡ (create_host right status.slave_id s, [])
  unfolding update_found
  status_update_dash service left right e h =
      cut_at_last_dash (task_name service ++ ("-" ++ left)) right
        (e
          ∙ ap (◌++◌ (task_name service)) (sym (append_assoc "-" left ("-" ++ right)))
          ∙ sym (append_assoc (task_name service) ("-" ++ left) ("-" ++ right)))
        h
      ∙ rw (get_service-dash service left) refl
