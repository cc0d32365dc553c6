-- ===== src/Scheduler/Services/Killing.antt =====
-- scheduler/scheduler.cpp: which tasks `resourceOffers` kills where there is no version to deploy.
use mathlib.Core.List.{Memᴰ}
use mesos_framework.Base.{
  String, ◌↔◌, sym, subst, ◌≡◌, refl, Bool, true, false, List, [], ◌∷◌, ◌++◌, arith, All,
  All-append, Bool-cases, inl, inr,
}
use mesos_framework.Proto.{running, is_running, NodeState, ServiceState}
use mesos_framework.Mesos.{Offer, Call, kill_task}
use mesos_framework.Scheduler.Names.{id_on}
use mesos_framework.Scheduler.Policy.{kill_service_if_running}
use mesos_framework.Scheduler.State.{
  Scheduler, Service, prober, registry, metadata, data_service, client, api, s3, console,
  service_state,
}
use mesos_framework.Scheduler.State.Fields.{task_name}
use mesos_framework.Scheduler.Services.{kill_services}

-- The services that a shutdown is about.
abbrev pub is_stopped : Service → Bool
is_stopped prober = false
is_stopped client = false
is_stopped _ = true

module _ {ℓ} {R : Type ℓ} where
  pub Memᴰ-left : {c : Call R} (xs ys : List (Call R)) → Memᴰ c xs → Memᴰ c (xs ++ ys)
  Memᴰ-left [] ys m = elim m [ ]
  Memᴰ-left (x ∷ xs) ys (Memᴰ.head e) = Memᴰ.head e
  Memᴰ-left (x ∷ xs) ys (Memᴰ.tail m) = Memᴰ.tail (Memᴰ-left xs ys m)

  pub Memᴰ-right : {c : Call R} (xs ys : List (Call R)) → Memᴰ c ys → Memᴰ c (xs ++ ys)
  Memᴰ-right [] ys m = m
  Memᴰ-right (x ∷ xs) ys m = Memᴰ.tail (Memᴰ-right xs ys m)

  killed :
      (id : String) (v : ServiceState)
      → v.state ≡ running
      → Memᴰ {A = Call R} (kill_task id) (kill_service_if_running id v)
  unfolding kill_service_if_running
  killed id v h = rw h (Memᴰ.head refl)

  -- A call that kills the task of a running service on a host.
  abbrev pub KillsRunning : Offer R → NodeState → Scheduler R → Call R → Type ℓ
  KillsRunning offer node s c =
      (service : Service) × (is_stopped service ≡ true)
      × ((service_state service node s).state ≡ running)
      × (c ≡ kill_task (id_on (task_name service) offer.hostname))

  kill-KillsRunning :
      (offer : Offer R) (node : NodeState) (s : Scheduler R) (service : Service)
      → is_stopped service ≡ true
      → All (KillsRunning offer node s) (
          kill_service_if_running
            (id_on (task_name service) offer.hostname)
            (service_state service node s))
  unfolding kill_service_if_running
  kill-KillsRunning offer node s service h =
      elim (Bool-cases (is_running (service_state service node s).state)) [
        | inl up ↦ rw up ((service, h, ground arith, refl), tt)
        | inr down ↦ rw down tt
      ]

  abbrev kills_of : Offer R → NodeState → Scheduler R → Service → List (Call R)
  kills_of offer node s service =
      kill_service_if_running (id_on (task_name service) offer.hostname)
        (service_state service node s)

  pub kill_services-Memᴰ :
      (offer : Offer R) (node : NodeState) (s : Scheduler R) (service : Service)
      → is_stopped service ≡ true
      → (service_state service node s).state ≡ running
      → Memᴰ (kill_task (id_on (task_name service) offer.hostname)) (kill_services offer node s)
  unfolding kill_services
  kill_services-Memᴰ offer node s registry h up =
      Memᴰ-left (kills_of offer node s registry) _ (killed _ node.registry up)
  kill_services-Memᴰ offer node s data_service h up =
      Memᴰ-right (kills_of offer node s registry) _
        (Memᴰ-left (kills_of offer node s data_service) _ (killed _ node.data_service up))
  kill_services-Memᴰ offer node s metadata h up = Memᴰ-right (kills_of offer node s registry) _ (
      Memᴰ-right (kills_of offer node s data_service) _
        (Memᴰ-left (kills_of offer node s metadata) _ (killed _ node.metadata up)))
  kill_services-Memᴰ offer node s api h up = Memᴰ-right (kills_of offer node s registry) _ (
      Memᴰ-right (kills_of offer node s data_service) _ (
        Memᴰ-right (kills_of offer node s metadata) _
          (Memᴰ-left (kills_of offer node s api) _ (killed _ s.api_state up))))
  kill_services-Memᴰ offer node s s3 h up = Memᴰ-right (kills_of offer node s registry) _ (
      Memᴰ-right (kills_of offer node s data_service) _ (
        Memᴰ-right (kills_of offer node s metadata) _ (
          Memᴰ-right (kills_of offer node s api) _
            (Memᴰ-left (kills_of offer node s s3) _ (killed _ s.s3_state up)))))
  kill_services-Memᴰ offer node s console h up = Memᴰ-right (kills_of offer node s registry) _ (
      Memᴰ-right (kills_of offer node s data_service) _ (
        Memᴰ-right (kills_of offer node s metadata) _ (
          Memᴰ-right (kills_of offer node s api) _
            (Memᴰ-right (kills_of offer node s s3) _ (killed _ s.console_state up)))))
  kill_services-Memᴰ offer node s _ h up = cc

  -- Every call of the block kills, under such an id, one of these six services that is recorded as
  -- running.
  pub kill_services-All :
      (offer : Offer R) (node : NodeState) (s : Scheduler R)
      → All (KillsRunning offer node s) (kill_services offer node s)
  unfolding kill_services
  kill_services-All offer node s =
      let P = KillsRunning offer node s in
      let kills = kill-KillsRunning offer node s in
      let k = kills_of offer node s in
      All-append P (k registry) _ (kills registry refl) (
        All-append P (k data_service) _ (kills data_service refl) (
          All-append P (k metadata) _ (kills metadata refl) (
            All-append P (k api) _ (kills api refl)
              (All-append P (k s3) _ (kills s3 refl) (kills console refl)))))

  All-Memᴰ {κ} :
      (P : Call R → Type κ) (cs : List (Call R)) (c : Call R) → All P cs → Memᴰ c cs → P c
  All-Memᴰ P [] c h m = elim m [ ]
  All-Memᴰ P (x ∷ xs) c (p, h) (Memᴰ.head e) = subst P (sym e) p
  All-Memᴰ P (x ∷ xs) c (p, h) (Memᴰ.tail m) = All-Memᴰ P xs c h m

  pub kill_services_iff :
      (offer : Offer R) (node : NodeState) (s : Scheduler R) (c : Call R)
      → Memᴰ c (kill_services offer node s) ↔ KillsRunning offer node s c
  kill_services_iff offer node s c = (
    All-Memᴰ (KillsRunning offer node s) (kill_services offer node s) c
        (kill_services-All offer node s),
    λ (service, stopped, runs, kills).
        subst (λ x. Memᴰ x (kill_services offer node s)) (sym kills)
          (kill_services-Memᴰ offer node s service stopped runs),
  )
