-- ===== src/Scheduler/Http/Versions.antt =====
-- scheduler/scheduler.cpp: the requests that `handleHTTP` answers.
use mesos_framework.Base.{
  String, ◌≡◌, refl, ◌≢◌, ◌⊎◌, Bool-cases, inl, inr, true, false, some, arith, ◌==◌, eq_iff, subst,
}
use mesos_framework.Scheduler.Names.{archive_url}
use mesos_framework.Scheduler.State.{Scheduler}
use mesos_framework.Scheduler.Page.{DebugText}
use mesos_framework.Scheduler.Proxy.{
  StateOps, IsStorage, TextFormat, IsFaithful, SchedulerStateProxy,
}
use mesos_framework.Scheduler.Proxy.Durability.{updates-IsDurable}
use mesos_framework.Scheduler.Http.{Archive, is_version_path, handle_version, handle_http}

-- The archive's path does not begin with the version's.
not_archive : (path : String) → is_version_path path ≡ true → (path == archive_url) ≡ false
not_archive path h = elim (Bool-cases (path == archive_url)) [
  | inl e ↦
      let wrong : is_version_path archive_url ≡ true =
        subst (λ p. is_version_path p ≡ true) ((eq_iff path archive_url).0 e) h in
      cc wrong
  | inr e ↦ e
]

module _ {ℓ κ μ} {S : Type ℓ} {R : Type κ} {T : Type μ} (ops : StateOps S T) (format : TextFormat T)
    (debug : DebugText) (archive : Archive) (s : Scheduler R) where
  -- A request that is not a POST, or that is not to the version's path, leaves the state that is
  -- persistent as it is.
  pub handle_http_read_only :
      (method path body : String) (proxy proxy' : SchedulerStateProxy S) (page : String)
      → (method ≢ "POST") ⊎ (is_version_path path ≡ false)
      → handle_http ops format debug archive method path body s proxy ≡ some (proxy', page)
      → proxy' ≡ proxy
  unfolding handle_http handle_version
  handle_http_read_only method path body proxy proxy' page h e =
      ground (arith, eq_iff method "POST", eq_iff method "GET")

  -- With a storage that keeps what is stored and a text format that reads what it prints: a POST
  -- to the version's path sets the version and answers with it, and a GET of that path that
  -- follows answers with the same version and changes nothing.
  pub handle_http_version :
      (storage : IsStorage ops) (faithful : IsFaithful format) (path body other : String)
      (proxy : SchedulerStateProxy S)
      → is_version_path path ≡ true
      → (proxy' : SchedulerStateProxy S) × (handle_http ops format debug archive "POST" path body s
            proxy
          ≡ some (proxy', body))
        × (proxy'.state ≡ record proxy.state { target_version = body })
        × (handle_http ops format debug archive "GET" path other s proxy' ≡ some (proxy', body))
  unfolding handle_http handle_version
  handle_http_version storage faithful path body other proxy h =
      let (written, set, same_path, state, reopened) =
        (updates-IsDurable ops storage format faithful proxy body).0 in
      (written, rw (h, set, state) refl, state, rw (not_archive path h, h, state) refl)
