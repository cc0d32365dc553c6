-- ===== src/Scheduler/Status/Order.antt =====
-- scheduler/scheduler.cpp: two calls of `statusUpdate`, in either order.
use mesos_framework.Base.{
  ℕ, String, ◌≡◌, refl, ap, sym, ◌∙◌, inl, inr, List, ◌++◌, Option, none, some, Bool-cases,
}
use mesos_framework.Base.Text.{NoDash}
use mesos_framework.Base.Dict
use mesos_framework.Proto.{ServiceState, NodeState, SchedulerState}
use mesos_framework.Mesos.{TaskStatus, Call}
use mesos_framework.Scheduler.Names.{id_on}
use mesos_framework.Scheduler.State.{
  Scheduler, Service, registry, metadata, data_service, client, create_host, service_state,
  is_shared,
}
use mesos_framework.Scheduler.State.Fields.{
  task_name, state_of, state_of-set_other, state_of-set_elsewhere,
}
use mesos_framework.Scheduler.Status.{
  service_should_run, judge_status, check_version, write_state, update_service, status_update,
}
use mesos_framework.Scheduler.Status.Routing.{status_update-update_service}
use mesos_framework.Scheduler.Status.Writes.{Apart, write_state_comm, SameDevices, find-write_state}

should_run-SameDevices :
    (v : Service) (n n' : NodeState) (state : ServiceState) (task_id : String)
    → SameDevices n n'
    → service_should_run v n' state task_id ≡ service_should_run v n state task_id
unfolding service_should_run
should_run-SameDevices registry n n' state task_id h = rw (h.0, h.2) refl
should_run-SameDevices metadata n n' state task_id h = rw (h.0, h.2) refl
should_run-SameDevices data_service n n' state task_id h = rw (h.0, h.2) refl
should_run-SameDevices client n n' state task_id h = rw (h.1, h.2) refl
should_run-SameDevices _ n n' state task_id h = rw h.2 refl

judge-SameDevices {ℓ} :
    (R : Type ℓ) (now : ℕ) (v : Service) (n n' : NodeState) (state : ServiceState)
    (status : TaskStatus)
    → SameDevices n n'
    → judge_status {R = R} now v n' state status ≡ judge_status {R = R} now v n state status
unfolding judge_status
judge-SameDevices R now v n n' state status h =
    rw (should_run-SameDevices v n n' state status.task_id h) refl

Apart-sym : (u v : Service) (h k : String) → Apart u h v k → Apart v k u h
Apart-sym u v h k (inl differ) = inl (λ e. differ (sym e))
Apart-sym u v h k (inr (own, there)) = elim (Bool-cases (is_shared v)) [
  | inl shared ↦ inl (λ e. cc (ap is_shared e, own, shared))
  | inr own' ↦ inr (own', λ e. there (sym e))
]

module _ {ℓ} {R : Type ℓ} (persisted : SchedulerState) where
  state_of-write_state :
      (u v : Service) (h k : String) (w : Option ServiceState) (s : Scheduler R)
      → Apart u h v k
      → state_of v k (write_state u h w s) ≡ state_of v k s
  state_of-write_state u v h k none s apart = refl
  state_of-write_state u v h k (some x) s (inl differ) = state_of-set_other u v h k x s differ
  state_of-write_state u v h k (some x) s (inr (own, there)) =
      state_of-set_elsewhere u v h k x s there own

  create_host-known :
      (hostname slave_id : String) (s : Scheduler R) (n : NodeState)
      → Dict.find hostname s.nodes ≡ some n
      → create_host hostname slave_id s ≡ s
  unfolding create_host Dict.insert
  create_host-known hostname slave_id s n found = rw found refl

  abbrev judged :
      ℕ → Service → NodeState → TaskStatus → Scheduler R → Option ServiceState × List (Call R)
  judged now v n status s = judge_status now v n (service_state v n s) status

  update_known :
      (now : ℕ) (status : TaskStatus) (v : Service) (hostname : String) (s : Scheduler R)
      (n : NodeState)
      → status.task_id ≡ id_on (task_name v) hostname
      → NoDash hostname
      → Dict.find hostname s.nodes ≡ some n
      → status_update persisted now status s ≡ (
        write_state v hostname (judged now v n status s).0 s,
        (judged now v n status s).1 ++ check_version persisted v status,
      )
  unfolding update_service
  update_known now status v hostname s n named plain found =
      status_update-update_service persisted now status s v hostname named plain
      ∙ rw (create_host-known hostname status.slave_id s n found, update_service, found) refl

  -- The second of two updates, once the first has been written.
  update_after :
      (now : ℕ) (status : TaskStatus) (u v : Service) (h k : String) (w : Option ServiceState)
      (s : Scheduler R) (n : NodeState)
      → status.task_id ≡ id_on (task_name v) k
      → NoDash k
      → Dict.find k s.nodes ≡ some n
      → Apart u h v k
      → status_update persisted now status (write_state u h w s) ≡ (
        write_state v k (judged now v n status s).0 (write_state u h w s),
        (judged now v n status s).1 ++ check_version persisted v status,
      )
  update_after now status u v h k w s n named plain found apart =
      let s₁ = write_state u h w s in
      let (n', found', devices) = find-write_state u h k w s n found in
      let before : state_of v k s ≡ service_state v n s = rw found refl in
      let after : state_of v k s₁ ≡ service_state v n' s₁ = rw found' refl in
      let same_state : service_state v n' s₁ ≡ service_state v n s =
        sym after ∙ state_of-write_state u v h k w s apart ∙ before in
      let same : judged now v n' status s₁ ≡ judged now v n status s =
        judge-SameDevices R now v n n' (service_state v n' s₁) status devices
        ∙ ap (λ state. judge_status {R = R} now v n state status) same_state in
      update_known now status v k s₁ n' named plain found'
      ∙ ap (λ r. (write_state v k r.0 s₁, r.1 ++ check_version persisted v status)) same

  -- On hosts that are known and whose names have no dash, the updates of two services that are kept
  -- apart, different services or a service of different hosts, may come in either order: the state
  -- is the same afterwards, and each makes the calls that it makes without the other.
  pub status_update-order :
      (u v : Service) (h k : String) (a b : TaskStatus) (t t' : ℕ) (s : Scheduler R)
      (m n : NodeState)
      → a.task_id ≡ id_on (task_name u) h
      → b.task_id ≡ id_on (task_name v) k
      → NoDash h
      → NoDash k
      → Dict.find h s.nodes ≡ some m
      → Dict.find k s.nodes ≡ some n
      → Apart u h v k
      → ((status_update persisted t' b (status_update persisted t a s).0).0
          ≡ (status_update persisted t a (status_update persisted t' b s).0).0)
        × ((status_update persisted t' b (status_update persisted t a s).0).1
            ≡ (status_update persisted t' b s).1)
        × ((status_update persisted t a (status_update persisted t' b s).0).1
            ≡ (status_update persisted t a s).1)
  status_update-order u v h k a b t t' s m n named_a named_b plain_h plain_k found_h found_k apart =
      let first_a = update_known t a u h s m named_a plain_h found_h in
      let first_b = update_known t' b v k s n named_b plain_k found_k in
      let w = (judged t u m a s).0 in
      let x = (judged t' v n b s).0 in
      let then_b = update_after t' b u v h k w s n named_b plain_k found_k apart in
      let then_a =
        update_after t a v u k h x s m named_a plain_h found_h (Apart-sym u v h k apart) in
      let both = ap (λ r. status_update persisted t' b r.0) first_a ∙ then_b in
      let swapped = ap (λ r. status_update persisted t a r.0) first_b ∙ then_a in
      (
        ap (λ r. r.0) both
            ∙ sym (write_state_comm u v h k w x s apart)
            ∙ sym (ap (λ r. r.0) swapped),
        ap (λ r. r.1) both ∙ sym (ap (λ r. r.1) first_b),
        ap (λ r. r.1) swapped ∙ sym (ap (λ r. r.1) first_a),
      )
