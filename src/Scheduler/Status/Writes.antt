-- ===== src/Scheduler/Status/Writes.antt =====
-- scheduler/scheduler.cpp: two writes through the pointers of `getService`, in either order.

use mesos_framework.Base.{
  String, ◌≡◌, ◌≢◌, refl, ap, sym, ◌∙◌, ◌⊎◌, inl, inr, true, false, [], ◌∷◌, Option, none, some,
  ◌==◌, eq_iff, Bool-cases,
}
use mesos_framework.Base.Dict
use mesos_framework.Base.Dict.{Dict}
use mesos_framework.Proto.{ServiceState, NodeState}
use mesos_framework.Scheduler.State.{
  Scheduler, Service, api, s3, console, prober, registry, metadata, data_service, client, is_shared,
  set_node_field, set_service_state,
}
use mesos_framework.Scheduler.Status.{write_state}

-- Two services whose states are kept apart.
abbrev pub Apart : Service → String → Service → String → Type 0
Apart u h v k = (u ≢ v) ⊎ ((is_shared u ≡ false) × (h ≢ k))

module _ {ℓ} {V : Type ℓ} where
  modify_comm :
      (h k : String) (f g : V → V) (m : Dict V)
      → ((h ≢ k) ⊎ ((a : V) → f (g a) ≡ g (f a)))
      → Dict.modify h f (Dict.modify k g m) ≡ Dict.modify k g (Dict.modify h f m)
  unfolding Dict.modify
  modify_comm h k f g [] apart = refl
  modify_comm h k f g ((j, a) ∷ m) apart = elim (Bool-cases (j == h)) [
    | inl at_h ↦ elim (Bool-cases (j == k)) [
      | inl at_k ↦ elim apart [
        | inl differ ↦ absurd (differ (sym ((eq_iff j h).0 at_h) ∙ (eq_iff j k).0 at_k))
        | inr comm ↦ rw (at_h, at_k, at_h) (ap (λ b. (j, b) ∷ m) (comm a))
      ]
      | inr not_k ↦ rw (at_h, not_k, at_h) refl
    ]
    | inr not_h ↦ elim (Bool-cases (j == k)) [
      | inl at_k ↦ rw (not_h, at_k, not_h) refl
      | inr not_k ↦
          rw (not_h, not_k, not_h) (ap (λ rest. (j, a) ∷ rest) (modify_comm h k f g m apart))
    ]
  ]

set_node_field_comm :
    (u v : Service) (x y : ServiceState) (n : NodeState)
    → u ≢ v
    → set_node_field u x (set_node_field v y n) ≡ set_node_field v y (set_node_field u x n)
set_node_field_comm prober prober x y n h = absurd (h refl)
set_node_field_comm registry registry x y n h = absurd (h refl)
set_node_field_comm metadata metadata x y n h = absurd (h refl)
set_node_field_comm data_service data_service x y n h = absurd (h refl)
set_node_field_comm client client x y n h = absurd (h refl)
set_node_field_comm _ _ x y n h = refl

module _ {ℓ} {R : Type ℓ} where
  set_service_state-own :
      (u : Service) (h : String) (x : ServiceState) (s : Scheduler R)
      → is_shared u ≡ false
      → set_service_state u h x s ≡ record s { nodes = Dict.modify h (set_node_field u x) s.nodes }
  set_service_state-own prober h x s own = refl
  set_service_state-own registry h x s own = refl
  set_service_state-own metadata h x s own = refl
  set_service_state-own data_service h x s own = refl
  set_service_state-own client h x s own = refl
  set_service_state-own _ h x s own = cc

  shared_first :
      (u v : Service) (h k : String) (x y : ServiceState) (s : Scheduler R)
      → is_shared u ≡ true
      → u ≢ v
      → set_service_state u h x (set_service_state v k y s)
        ≡ set_service_state v k y (set_service_state u h x s)
  shared_first api api h k x y s shared apart = absurd (apart refl)
  shared_first s3 s3 h k x y s shared apart = absurd (apart refl)
  shared_first console console h k x y s shared apart = absurd (apart refl)
  shared_first api _ h k x y s shared apart = refl
  shared_first s3 _ h k x y s shared apart = refl
  shared_first console _ h k x y s shared apart = refl
  shared_first _ _ h k x y s shared apart = cc

  set_service_state_comm :
      (u v : Service) (h k : String) (x y : ServiceState) (s : Scheduler R)
      → Apart u h v k
      → set_service_state u h x (set_service_state v k y s)
        ≡ set_service_state v k y (set_service_state u h x s)
  set_service_state_comm u v h k x y s apart = elim (Bool-cases (is_shared u)) [
    | inl shared ↦ elim apart [
      | inl differ ↦ shared_first u v h k x y s shared differ
      | inr (own, there) ↦ cc
    ]
    | inr own ↦ elim (Bool-cases (is_shared v)) [
      | inl shared ↦ sym (shared_first v u k h y x s shared (λ e. cc (ap is_shared e, own, shared)))
      | inr own' ↦
          let f = set_node_field u x in
          let g = set_node_field v y in
          let at_u = record s { nodes = Dict.modify h f s.nodes } in
          let at_v = record s { nodes = Dict.modify k g s.nodes } in
          ap (set_service_state u h x) (set_service_state-own v k y s own')
          ∙ set_service_state-own u h x at_v own
          ∙ ap (λ m. record s { nodes = m }) (modify_comm h k f g s.nodes (fields apart))
          ∙ sym (set_service_state-own v k y at_u own')
          ∙ sym (ap (set_service_state v k y) (set_service_state-own u h x s own))
    ]
  ]
    where
      fields :
          Apart u h v k
          → (h ≢ k)
            ⊎ ((n : NodeState)
                → set_node_field u x (set_node_field v y n)
                  ≡ set_node_field v y (set_node_field u x n))
      fields (inl differ) = inr (λ n. set_node_field_comm u v x y n differ)
      fields (inr (own, there)) = inl there

  pub write_state_comm :
      (u v : Service) (h k : String) (x y : Option ServiceState) (s : Scheduler R)
      → Apart u h v k
      → write_state u h x (write_state v k y s) ≡ write_state v k y (write_state u h x s)
  write_state_comm u v h k none y s apart = refl
  write_state_comm u v h k (some x) none s apart = refl
  write_state_comm u v h k (some x) (some y) s apart = set_service_state_comm u v h k x y s apart

-- What a status update reads of a node, but for the state of its service.
abbrev pub SameDevices : NodeState → NodeState → Type 0
SameDevices n n' =
    (n'.device_type ≡ n.device_type)
    × (n'.client_mount_point ≡ n.client_mount_point)
    × (n'.device_types_valid ≡ n.device_types_valid)

set_node_field-SameDevices :
    (u : Service) (x : ServiceState) (n : NodeState) → SameDevices n (set_node_field u x n)
set_node_field-SameDevices prober x n = (refl, refl, refl)
set_node_field-SameDevices registry x n = (refl, refl, refl)
set_node_field-SameDevices metadata x n = (refl, refl, refl)
set_node_field-SameDevices data_service x n = (refl, refl, refl)
set_node_field-SameDevices client x n = (refl, refl, refl)
set_node_field-SameDevices _ x n = (refl, refl, refl)

module _ {ℓ} {R : Type ℓ} where
  nodes-shared :
      (u : Service) (h : String) (x : ServiceState) (s : Scheduler R)
      → is_shared u ≡ true
      → (set_service_state u h x s).nodes ≡ s.nodes
  nodes-shared api h x s shared = refl
  nodes-shared s3 h x s shared = refl
  nodes-shared console h x s shared = refl
  nodes-shared _ h x s shared = cc

  -- The node of a host after a write.
  pub find-write_state :
      (u : Service) (h k : String) (w : Option ServiceState) (s : Scheduler R) (n : NodeState)
      → Dict.find k s.nodes ≡ some n
      → (n' : NodeState) × (Dict.find k (write_state u h w s).nodes ≡ some n') × SameDevices n n'
  find-write_state u h k none s n found = (n, found, (refl, refl, refl))
  find-write_state u h k (some x) s n found = elim (Bool-cases (is_shared u)) [
    | inl shared ↦ (n, ap (Dict.find k) (nodes-shared u h x s shared) ∙ found, (refl, refl, refl))
    | inr own ↦
        let there =
          ap (λ t. Dict.find k t.nodes) (set_service_state-own u h x s own)
          ∙ Dict.find-modify h k (set_node_field u x) s.nodes in
        elim (Bool-cases (h == k)) [
          | inl here ↦ (
            set_node_field u x n,
            there ∙ rw (here, found) refl,
            set_node_field-SameDevices u x n,
          )
          | inr other ↦ (n, there ∙ rw (other, found) refl, (refl, refl, refl))
        ]
  ]
