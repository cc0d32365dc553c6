-- ===== src/Scheduler/Services/Rounds.antt =====
-- scheduler/scheduler.cpp: the launches of a whole start of services.
use mesos_framework.Base.{
  ◌+◌, ◌≡◌, refl, inl, inr, true, List, [], ◌∷◌, some, arith, Bool-cases, >>=-eq-some,
}
use mesos_framework.Base.Text.{is_empty}
use mesos_framework.Flags.{Flags}
use mesos_framework.Proto.{DeviceType, SchedulerState}
use mesos_framework.Mesos.{Offer, ResourceOps}
use mesos_framework.Scheduler.Names.{s3_task}
use mesos_framework.Scheduler.State.{Service, api, s3, console, is_shared}
use mesos_framework.Scheduler.State.Fields.{task_name}
use mesos_framework.Scheduler.Services.{
  Round, start_api, start_s3, start_console, start_client, start_device, start_devices,
  start_services, start_shared,
}
use mesos_framework.Scheduler.Services.Counts.{
  shared_state, count_named, RoundLaunches, LaunchesOnce-trans, core_name-differs,
}
use mesos_framework.Scheduler.Services.Shared.{
  start_client-RoundLaunches, start_core-RoundLaunches, start_shared-RoundLaunches,
  start_own-RoundLaunches,
}

module _ {ℓ} {R : Type ℓ} where
  RoundLaunches-refl : (service : Service) (r : Round R) → RoundLaunches service r r
  RoundLaunches-refl service r = inl (refl, refl)

  RoundLaunches-trans :
      (service : Service) (r r' r'' : Round R)
      → RoundLaunches service r r'
      → RoundLaunches service r' r''
      → RoundLaunches service r r''
  RoundLaunches-trans service r r' r'' h k =
      LaunchesOnce-trans (shared_state service r.scheduler) (shared_state service r'.scheduler)
        (shared_state service r''.scheduler) (count_named (task_name service) r.tasks)
        (count_named (task_name service) r'.tasks) (count_named (task_name service) r''.tasks) h k

module _ {ℓ} {R : Type ℓ} (flags : Flags) (ops : ResourceOps R) (persisted : SchedulerState)
    (offer : Offer R) where
  start_api-RoundLaunches :
      (service : Service) (r r' : Round R)
      → is_shared service ≡ true
      → start_api flags ops persisted offer r ≡ some r'
      → RoundLaunches service r r'
  unfolding start_api
  start_api-RoundLaunches api r r' h e =
      start_own-RoundLaunches flags ops persisted api _ _ _ _ _ offer r r' (refl, λ v s. refl) e
  start_api-RoundLaunches s3 r r' h e =
      start_shared-RoundLaunches flags ops persisted s3 _ _ _ _ _ _ offer r r' (refl, λ v s. refl) e
  start_api-RoundLaunches console r r' h e =
      start_shared-RoundLaunches flags ops persisted console _ _ _ _ _ _ offer r r'
        (refl, λ v s. refl) e
  start_api-RoundLaunches _ r r' h e = cc

  start_s3-RoundLaunches :
      (service : Service) (r r' : Round R)
      → is_shared service ≡ true
      → start_s3 flags ops persisted offer r ≡ some r'
      → RoundLaunches service r r'
  unfolding start_s3
  start_s3-RoundLaunches service r r' h e = elim (Bool-cases (is_empty flags.s3_hostname)) [
    | inl off ↦ let same : r ≡ r' = ground arith in rw (← same) (RoundLaunches-refl service r)
    | inr on ↦ go service h (rw (on, start_s3) at e)
  ]
    where
      go :
          (service : Service)
          → is_shared service ≡ true
          → start_shared flags ops persisted s3_task "quobyte-s3"
              (flags.port_range_base + 10)
              (flags.port_range_base + 11)
              (λ s. s.s3_state)
              (λ v s. record s { s3_state = v })
              offer
              r
            ≡ some r'
          → RoundLaunches service r r'
      go s3 h e =
          start_own-RoundLaunches flags ops persisted s3 _ _ _ _ _ offer r r' (refl, λ v s. refl) e
      go api h e =
          start_shared-RoundLaunches flags ops persisted api _ _ _ _ _ _ offer r r'
            (refl, λ v s. refl) e
      go console h e =
          start_shared-RoundLaunches flags ops persisted console _ _ _ _ _ _ offer r r'
            (refl, λ v s. refl) e
      go _ h e = cc

  start_console-RoundLaunches :
      (service : Service) (r r' : Round R)
      → is_shared service ≡ true
      → start_console flags ops persisted offer r ≡ some r'
      → RoundLaunches service r r'
  unfolding start_console
  start_console-RoundLaunches console r r' h e =
      start_own-RoundLaunches flags ops persisted console _ _ _ _ _ offer r r' (refl, λ v s. refl) e
  start_console-RoundLaunches s3 r r' h e =
      start_shared-RoundLaunches flags ops persisted s3 _ _ _ _ _ _ offer r r' (refl, λ v s. refl) e
  start_console-RoundLaunches api r r' h e =
      start_shared-RoundLaunches flags ops persisted api _ _ _ _ _ _ offer r r' (refl, λ v s. refl)
        e
  start_console-RoundLaunches _ r r' h e = cc

  start_device-RoundLaunches :
      (service : Service) (d : DeviceType) (r r' : Round R)
      → is_shared service ≡ true
      → start_device flags ops persisted d offer r ≡ some r'
      → RoundLaunches service r r'
  unfolding start_device
  start_device-RoundLaunches service DeviceType.registry r r' h e =
      start_core-RoundLaunches flags ops persisted service _ _ _ _ _ _ offer r r'
        (core_name-differs service h).1 e
  start_device-RoundLaunches service DeviceType.metadata r r' h e =
      start_core-RoundLaunches flags ops persisted service _ _ _ _ _ _ offer r r'
        (core_name-differs service h).2 e
  start_device-RoundLaunches service DeviceType.data_device r r' h e =
      start_core-RoundLaunches flags ops persisted service _ _ _ _ _ _ offer r r'
        (core_name-differs service h).3 e
  start_device-RoundLaunches service _ r r' h e =
      let same : r ≡ r' = ground arith in rw (← same) (RoundLaunches-refl service r)

  start_devices-RoundLaunches :
      (service : Service) (ds : List DeviceType) (r r' : Round R)
      → is_shared service ≡ true
      → start_devices flags ops persisted ds offer r ≡ some r'
      → RoundLaunches service r r'
  unfolding start_devices
  start_devices-RoundLaunches service [] r r' h e =
      let same : r ≡ r' = ground arith in rw (← same) (RoundLaunches-refl service r)
  start_devices-RoundLaunches service (d ∷ ds) r r' h e =
      let (r₁, first, rest) = >>=-eq-some (start_device flags ops persisted d offer r) _ e in
      RoundLaunches-trans service r r₁ r' (start_device-RoundLaunches service d r r₁ h first)
        (start_devices-RoundLaunches service ds r₁ r' h rest)

  -- One start of services launches a service that all hosts share at most once, and then only if it
  -- was known not to run; it is recorded as running, which rules out another launch.
  pub start_services-RoundLaunches :
      (service : Service) (r r' : Round R)
      → is_shared service ≡ true
      → start_services flags ops persisted offer r ≡ some r'
      → RoundLaunches service r r'
  unfolding start_services
  start_services-RoundLaunches service r r' h e =
      let (r₁, e₁, k₁) = >>=-eq-some (start_api flags ops persisted offer r) _ e in
      let (r₂, e₂, k₂) = >>=-eq-some (start_s3 flags ops persisted offer r₁) _ k₁ in
      let (r₃, e₃, k₃) = >>=-eq-some (start_console flags ops persisted offer r₂) _ k₂ in
      let r₄ = start_client flags ops persisted offer r₃ in
      let trans = RoundLaunches-trans {R = R} service in
      trans r r₁ r' (start_api-RoundLaunches service r r₁ h e₁) (
        trans r₁ r₂ r' (start_s3-RoundLaunches service r₁ r₂ h e₂) (
          trans r₂ r₃ r' (start_console-RoundLaunches service r₂ r₃ h e₃) (
            trans r₃ r₄ r' (start_client-RoundLaunches flags ops persisted service offer r₃ h)
              (start_devices-RoundLaunches service r₄.node.device_type r₄ r' h k₃))))
