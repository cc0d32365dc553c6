-- ===== src/Scheduler/Keeping/Hosts.antt =====
-- scheduler/scheduler.cpp: what is known of a host from the start, through every handler.
use mathlib.Core.Option
use mesos_framework.Base.{
  ℕ, ◌+◌, String, ◌≡◌, refl, ◌∙◌, Option, none, some, ◌==◌, Ensures, subst, if◌then◌else◌, Bool,
  true, false,
}
use mesos_framework.Base.Text.{rfind, substr, substr_from}
use mesos_framework.Base.Dict
use mesos_framework.Flags.{Flags}
use mesos_framework.Proto.{ServiceState, NodeState, SchedulerState, ProbeRequest, ProbeResponse}
use mesos_framework.Mesos.{TaskStatus, ResourceOps}
use mesos_framework.Scheduler.State.{
  Scheduler, Service, api, s3, console, prober, registry, metadata, data_service, client,
  create_host, get_service, set_node_field,
}
use mesos_framework.Scheduler.Status.{
  write_state, update_service, update_found, update_at, status_update,
}
use mesos_framework.Scheduler.Probe.{framework_message}
use mesos_framework.Scheduler.Keeping.{HostKeeps, SchedulerKeeps, create_host-SchedulerKeeps}
use mesos_framework.Scheduler.Keeping.Offers.{resource_offers-Leaves}
use mesos_framework.Scheduler.Keeping.Updates.{framework_message-SchedulerKeeps}
use mesos_framework.Scheduler.Runs.{Step, offers, update, message}

-- A host that is known stays known, under its name and with its slave's id.
abbrev pub SameHost : Option NodeState → Option NodeState → Type 0
SameHost none o = Unit
SameHost (some n) none = ⊥
SameHost (some n) (some n') = (n'.slave_id_value ≡ n.slave_id_value) × (n'.hostname ≡ n.hostname)

pub SameHost-refl : (o : Option NodeState) → SameHost o o
SameHost-refl none = tt
SameHost-refl (some n) = (refl, refl)

pub SameHost-trans : (a b c : Option NodeState) → SameHost a b → SameHost b c → SameHost a c
SameHost-trans none b c h k = tt
SameHost-trans (some n) none c h k = absurd h
SameHost-trans (some n) (some n') none h k = absurd k
SameHost-trans (some n) (some n') (some n'') h k = (k.0 ∙ h.0, k.1 ∙ h.1)

pub SameHost-found :
    (n : NodeState) (o : Option NodeState)
    → SameHost (some n) o
    → (n' : NodeState) × (o ≡ some n')
      × (n'.slave_id_value ≡ n.slave_id_value)
      × (n'.hostname ≡ n.hostname)
SameHost-found n none h = absurd h
SameHost-found n (some n') h = (n', refl, h.0, h.1)

HostKeeps-SameHost : (a b : Option NodeState) → HostKeeps a b → SameHost a b
HostKeeps-SameHost none b h = tt
HostKeeps-SameHost (some n) none h = h
HostKeeps-SameHost (some n) (some n') h = (h.5, h.6)

set_node_field-same :
    (service : Service) (v : ServiceState) (n : NodeState)
    → SameHost (some n) (some (set_node_field service v n))
set_node_field-same prober v n = (refl, refl)
set_node_field-same registry v n = (refl, refl)
set_node_field-same metadata v n = (refl, refl)
set_node_field-same data_service v n = (refl, refl)
set_node_field-same client v n = (refl, refl)
set_node_field-same _ v n = (refl, refl)

map-SameHost :
    (b : Bool) (f : NodeState → NodeState) (o : Option NodeState)
    → ((n : NodeState) → SameHost (some n) (some (f n)))
    → SameHost o (if b then Option.map f o else o)
map-SameHost true f none h = tt
map-SameHost true f (some n) h = h n
map-SameHost false f o h = SameHost-refl o

module _ {ℓ} {R : Type ℓ} where
  abbrev pub SameHosts : Scheduler R → Scheduler R → Type 0
  SameHosts s s' =
      (hostname : String) → SameHost (Dict.find hostname s.nodes) (Dict.find hostname s'.nodes)

  SchedulerKeeps-SameHosts : (s s' : Scheduler R) → SchedulerKeeps s s' → SameHosts s s'
  SchedulerKeeps-SameHosts s s' h hostname = HostKeeps-SameHost _ _ (h.3 hostname)

  modify-SameHosts :
      (service : Service) (hostname : String) (v : ServiceState) (s : Scheduler R)
      → SameHosts s (record s { nodes = Dict.modify hostname (set_node_field service v) s.nodes })
  modify-SameHosts service hostname v s host' =
      rw (Dict.find-modify hostname host' (set_node_field service v) s.nodes) (
        map-SameHost (hostname == host') (set_node_field service v) (Dict.find host' s.nodes)
          (set_node_field-same service v))

  write_state-SameHosts :
      (service : Service) (hostname : String) (w : Option ServiceState) (s : Scheduler R)
      → SameHosts s (write_state service hostname w s)
  write_state-SameHosts service hostname none s host' = SameHost-refl (Dict.find host' s.nodes)
  write_state-SameHosts api hostname (some v) s host' = SameHost-refl (Dict.find host' s.nodes)
  write_state-SameHosts s3 hostname (some v) s host' = SameHost-refl (Dict.find host' s.nodes)
  write_state-SameHosts console hostname (some v) s host' = SameHost-refl (Dict.find host' s.nodes)
  write_state-SameHosts prober hostname (some v) s host' =
      modify-SameHosts prober hostname v s host'
  write_state-SameHosts registry hostname (some v) s host' =
      modify-SameHosts registry hostname v s host'
  write_state-SameHosts metadata hostname (some v) s host' =
      modify-SameHosts metadata hostname v s host'
  write_state-SameHosts data_service hostname (some v) s host' =
      modify-SameHosts data_service hostname v s host'
  write_state-SameHosts client hostname (some v) s host' =
      modify-SameHosts client hostname v s host'

  pub SameHosts-trans : (s t u : Scheduler R) → SameHosts s t → SameHosts t u → SameHosts s u
  SameHosts-trans s t u h k hostname =
      SameHost-trans (Dict.find hostname s.nodes) (Dict.find hostname t.nodes)
        (Dict.find hostname u.nodes) (h hostname) (k hostname)

  update_found-SameHosts :
      (persisted : SchedulerState) (now : ℕ) (status : TaskStatus) (hostname : String)
      (service : Option Service) (s : Scheduler R)
      → SameHosts s (update_found persisted now status hostname service s).0
  unfolding update_found update_service
  update_found-SameHosts persisted now status hostname none s host' =
      SameHost-refl (Dict.find host' s.nodes)
  update_found-SameHosts persisted now status hostname (some service) s host' =
      write_state-SameHosts service hostname _ s host'

  update_at-SameHosts :
      (persisted : SchedulerState) (now : ℕ) (status : TaskStatus) (cut : Option ℕ)
      (s : Scheduler R)
      → SameHosts s (update_at persisted now status cut s).0
  unfolding update_at
  update_at-SameHosts persisted now status none s host' = SameHost-refl (Dict.find host' s.nodes)
  update_at-SameHosts persisted now status (some p) s host' =
      let hostname = substr_from status.task_id (p + 1) in
      let service = get_service (substr status.task_id 0 p) in
      let made = create_host hostname status.slave_id s in
      SameHosts-trans s made (update_found persisted now status hostname service made).0
        (SchedulerKeeps-SameHosts s made (create_host-SchedulerKeeps hostname status.slave_id s))
        (update_found-SameHosts persisted now status hostname service made) host'

  status_update-SameHosts :
      (persisted : SchedulerState) (now : ℕ) (status : TaskStatus) (s : Scheduler R)
      → SameHosts s (status_update persisted now status s).0
  unfolding status_update
  status_update-SameHosts persisted now status s =
      update_at-SameHosts persisted now status (rfind status.task_id) s

  pub Step-SameHosts :
      (flags : Flags) (ops : ResourceOps R) (encode_request : ProbeRequest → String)
      (decode_response : String → Option ProbeResponse) (s s' : Scheduler R)
      → Step flags ops encode_request decode_response s s'
      → SameHosts s s'
  Step-SameHosts flags ops encode_request decode_response s s' (offers persisted os calls e) =
      SchedulerKeeps-SameHosts s s' (
        subst (Ensures (λ r. SchedulerKeeps s r.0)) e
          (resource_offers-Leaves flags ops persisted encode_request os s))
  Step-SameHosts flags ops encode_request decode_response s s' (update persisted now status e) =
      rw (← e) (status_update-SameHosts persisted now status s)
  Step-SameHosts flags ops encode_request decode_response s s' (message now slave_id payload e) =
      rw (← e) (
        SchedulerKeeps-SameHosts s (framework_message decode_response now slave_id payload s)
          (framework_message-SchedulerKeeps decode_response now slave_id payload s))
