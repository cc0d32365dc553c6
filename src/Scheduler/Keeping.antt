-- ===== src/Scheduler/Keeping.antt =====
-- scheduler/scheduler.cpp, across the handlers: what happens to a service while it is recorded as
-- running. The children follow the offers, the updates and the messages.
pub mod Rounds
pub mod Offers
pub mod Updates
pub mod Hosts
use mesos_framework.Base.{
  ℕ, String, ◌≡◌, ◌≢◌, refl, ◌∙◌, ◌⊎◌, inl, inr, arith, Option, none, some, get_or, Option-cases,
  if◌then◌else◌, ◌==◌, Bool-cases, eq_iff,
}
use mathlib.Core.Option
use mesos_framework.Base.Dict
use mesos_framework.Base.Dict.{Dict}
use mesos_framework.Proto.{running, ServiceState, NodeState}
use mesos_framework.Scheduler.State.{Scheduler, create_host, new_host}

-- A service that runs goes on running, as the same task.
abbrev pub Keeps : ServiceState → ServiceState → Type 0
Keeps v v' = v.state ≡ running → (v'.state ≡ running) × (v'.task_id ≡ v.task_id)

pub Keeps-trans : (u v w : ServiceState) → Keeps u v → Keeps v w → Keeps u w
Keeps-trans u v w h k r = ((k (h r).0).0, (k (h r).0).1 ∙ (h r).1)

pub Keeps-refl : (v : ServiceState) → Keeps v v
Keeps-refl v r = (r, refl)

-- So do the services of a host, which stays the same host, on the same slave.
abbrev pub NodeKeeps : NodeState → NodeState → Type 0
NodeKeeps n n' =
    Keeps n.prober n'.prober
    × Keeps n.registry n'.registry
    × Keeps n.metadata n'.metadata
    × Keeps n.data_service n'.data_service
    × Keeps n.client n'.client
    × (n'.slave_id_value ≡ n.slave_id_value)
    × (n'.hostname ≡ n.hostname)

pub NodeKeeps-refl : (n : NodeState) → NodeKeeps n n
NodeKeeps-refl n = (
  Keeps-refl n.prober,
  Keeps-refl n.registry,
  Keeps-refl n.metadata,
  Keeps-refl n.data_service,
  Keeps-refl n.client,
  refl,
  refl,
)

pub NodeKeeps-trans : (l m n : NodeState) → NodeKeeps l m → NodeKeeps m n → NodeKeeps l n
NodeKeeps-trans l m n h k = (
  Keeps-trans l.prober m.prober n.prober h.0 k.0,
  Keeps-trans l.registry m.registry n.registry h.1 k.1,
  Keeps-trans l.metadata m.metadata n.metadata h.2 k.2,
  Keeps-trans l.data_service m.data_service n.data_service h.3 k.3,
  Keeps-trans l.client m.client n.client h.4 k.4,
  k.5 ∙ h.5,
  k.6 ∙ h.6,
)

-- A host that is known stays known.
abbrev pub HostKeeps : Option NodeState → Option NodeState → Type 0
HostKeeps none o = Unit
HostKeeps (some n) none = ⊥
HostKeeps (some n) (some n') = NodeKeeps n n'

pub HostKeeps-refl : (o : Option NodeState) → HostKeeps o o
HostKeeps-refl none = tt
HostKeeps-refl (some n) = NodeKeeps-refl n

pub HostKeeps-trans : (a b c : Option NodeState) → HostKeeps a b → HostKeeps b c → HostKeeps a c
HostKeeps-trans none b c h k = tt
HostKeeps-trans (some n) none c h k = absurd h
HostKeeps-trans (some n) (some n') none h k = absurd k
HostKeeps-trans (some n) (some n') (some n'') h k = NodeKeeps-trans n n' n'' h k

abbrev pub NodesKeep : Dict NodeState → Dict NodeState → Type 0
NodesKeep m m' = (hostname : String) → HostKeeps (Dict.find hostname m) (Dict.find hostname m')

pub NodesKeep-insert :
    (hostname : String) (n : NodeState) (m : Dict NodeState)
    → NodesKeep m (Dict.insert hostname n m)
NodesKeep-insert hostname n m host' =
    rw (Dict.find-insert hostname host' n m) (go (Dict.find host' m) _)
  where
    go : (o p : Option NodeState) → HostKeeps o (Dict.or_else o p)
    go none p = tt
    go (some n') p = NodeKeeps-refl n'

pub NodesKeep-modify :
    (hostname : String) (f : NodeState → NodeState) (m : Dict NodeState)
    → ((n : NodeState) → Dict.find hostname m ≡ some n → NodeKeeps n (f n))
    → NodesKeep m (Dict.modify hostname f m)
NodesKeep-modify hostname f m keeps host' = elim (Bool-cases (hostname == host')) [
  | inr other ↦ rw (Dict.find-modify hostname host' f m, other) (HostKeeps-refl (Dict.find host' m))
  | inl same ↦
      let here : hostname ≡ host' = (eq_iff hostname host').0 same in
      rw (Dict.find-modify hostname host' f m, same) (go (Dict.find host' m) (rw here at keeps))
]
  where
    go :
        (o : Option NodeState)
        → ((n : NodeState) → o ≡ some n → NodeKeeps n (f n))
        → HostKeeps o (Option.map f o)
    go none k = tt
    go (some n) k = k n refl

module _ {ℓ} {R : Type ℓ} where
  -- All that the scheduler records of running services is kept.
  abbrev pub SchedulerKeeps : Scheduler R → Scheduler R → Type 0
  SchedulerKeeps s s' =
      Keeps s.api_state s'.api_state
      × Keeps s.console_state s'.console_state
      × Keeps s.s3_state s'.s3_state
      × NodesKeep s.nodes s'.nodes

  pub SchedulerKeeps-refl : (s : Scheduler R) → SchedulerKeeps s s
  SchedulerKeeps-refl s = (
    Keeps-refl s.api_state,
    Keeps-refl s.console_state,
    Keeps-refl s.s3_state,
    λ hostname. HostKeeps-refl (Dict.find hostname s.nodes),
  )

  pub SchedulerKeeps-trans :
      (s t u : Scheduler R) → SchedulerKeeps s t → SchedulerKeeps t u → SchedulerKeeps s u
  SchedulerKeeps-trans s t u h k = (
    Keeps-trans s.api_state t.api_state u.api_state h.0 k.0,
    Keeps-trans s.console_state t.console_state u.console_state h.1 k.1,
    Keeps-trans s.s3_state t.s3_state u.s3_state h.2 k.2,
    λ hostname.
        HostKeeps-trans (Dict.find hostname s.nodes) (Dict.find hostname t.nodes)
          (Dict.find hostname u.nodes) (h.3 hostname) (k.3 hostname),
  )

  pub create_host-SchedulerKeeps :
      (hostname slave_id : String) (s : Scheduler R)
      → SchedulerKeeps s (create_host hostname slave_id s)
  unfolding create_host
  create_host-SchedulerKeeps hostname slave_id s = (
    Keeps-refl s.api_state,
    Keeps-refl s.console_state,
    Keeps-refl s.s3_state,
    NodesKeep-insert hostname (new_host hostname slave_id) s.nodes,
  )

  pub modify-SchedulerKeeps :
      (hostname : String) (f : NodeState → NodeState) (s : Scheduler R)
      → ((n : NodeState) → Dict.find hostname s.nodes ≡ some n → NodeKeeps n (f n))
      → SchedulerKeeps s (record s { nodes = Dict.modify hostname f s.nodes })
  modify-SchedulerKeeps hostname f s keeps = (
    Keeps-refl s.api_state,
    Keeps-refl s.console_state,
    Keeps-refl s.s3_state,
    NodesKeep-modify hostname f s.nodes keeps,
  )
