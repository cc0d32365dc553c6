-- ===== src/Scheduler/Callbacks.antt =====
-- scheduler/scheduler.cpp: the callbacks of the driver that log and do nothing else.
use mesos_framework.Base.{ℕ, String}
use mesos_framework.Scheduler.State.{Scheduler}

module _ {ℓ} {R : Type ℓ} where
  unfoldable pub disconnected : Scheduler R → Scheduler R
  disconnected s = s

  unfoldable pub slave_lost : (slave_id : String) → Scheduler R → Scheduler R
  slave_lost slave_id s = s

  unfoldable pub error : (text : String) → Scheduler R → Scheduler R
  error text s = s

  unfoldable pub offer_rescinded : (offer_id : String) → Scheduler R → Scheduler R
  offer_rescinded offer_id s = s

  unfoldable pub executor_lost :
      (executor_id slave_id : String) (status : ℕ) → Scheduler R → Scheduler R
  executor_lost executor_id slave_id status s = s
