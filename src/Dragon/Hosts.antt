-- ===== src/Dragon/Hosts.antt =====
-- Which hosts are free, which are allocated, and to whom: the invariant of the backend's
-- bookkeeping, with lemmas on the map from hosts to steps.
pub mod Allocate
pub mod Release
pub mod Stops
pub mod Starts
pub mod Loop
pub mod Refreshes
pub mod Requests
pub mod Fixed
pub mod Histories
use smart_sim.Common.{
  ℕ, ◌+◌, ◌≤◌, Bool, true, false, List, [], ◌∷◌, ◌++◌, Option, none, some, Text, text_eq,
  text_eq_iff, count, count-append, if◌then◌else◌, ◌≡◌, ◌≢◌, refl, sym, arith, inl, inr,
  Option-cases,
}
use smart_sim.Common.Dict.{
  Dict, get?, set, del, contains, keys, get?-set, get?-del, contains-set, get?-contains,
}
use smart_sim.Dragon.State.{
  DragonRunRequest, ProcessGroup, ProcessTemplate, ProcessGroupInfo, DragonBackend, World, Launch,
}
use smart_sim.Dragon.Server.{step_name}

-- 1 if a step is allocated on the host, 0 if not.
unfoldable pub held : Text → Dict Text → ℕ
held h allocated = elim (get? h allocated) [ none ↦ 0 | some owner ↦ 1 ]

-- 1 if this step is allocated on the host, 0 if not.
unfoldable pub owned : Text → Text → Dict Text → ℕ
owned st h allocated = elim (get? h allocated) [
  | none ↦ 0
  | some owner ↦ if text_eq owner st then 1 else 0
]

-- The hosts on record for a step.
unfoldable pub hosts_of : Text → Dict ProcessGroupInfo → List Text
hosts_of st infos = elim (get? st infos) [ none ↦ [] | some info ↦ info.hosts ]

pub hosts_of-get? :
    (st : Text) (d : Dict ProcessGroupInfo) (info : ProcessGroupInfo)
    → get? st d ≡ some info
    → hosts_of st d ≡ info.hosts
unfolding hosts_of
hosts_of-get? st d info e = ground arith

pub owned-le-held : (st h : Text) (d : Dict Text) → owned st h d ≤ held h d
unfolding owned held
owned-le-held st h d = ground arith

pub held-le-one : (h : Text) (d : Dict Text) → held h d ≤ 1
unfolding held
held-le-one h d = ground arith

pub owned-le-one : (st h : Text) (d : Dict Text) → owned st h d ≤ 1
unfolding owned
owned-le-one st h d = ground arith

-- A host is allocated to one step only.
pub owned_unique :
    (a b h : Text) (d : Dict Text) → 1 ≤ owned a h d → 1 ≤ owned b h d → text_eq a b ≡ true
unfolding owned
owned_unique a b h d p q = elim (Option-cases (get? h d)) [
  | inl e ↦ absurd (ground arith)
  | inr (o, e) ↦ ground (arith, text_eq_iff o a, text_eq_iff o b, text_eq_iff a b)
]

pub held-set :
    (h x o : Text) (d : Dict Text) → held h (set x o d) ≡ (if text_eq x h then 1 else held h d)
unfolding held
held-set h x o d = ground (arith, get?-set h x o d)

pub held-del :
    (h x : Text) (d : Dict Text) → held h (del x d) ≡ (if text_eq x h then 0 else held h d)
unfolding held
held-del h x d = ground (arith, get?-del h x d)

pub owned-set :
    (st h x o : Text) (d : Dict Text)
    → owned st h (set x o d)
      ≡ (if text_eq x h then (if text_eq o st then 1 else 0) else owned st h d)
unfolding owned
owned-set st h x o d = ground (arith, get?-set h x o d)

pub owned-del :
    (st h x : Text) (d : Dict Text)
    → owned st h (del x d) ≡ (if text_eq x h then 0 else owned st h d)
unfolding owned
owned-del st h x d = ground (arith, get?-del h x d)

pub hosts_of-set :
    (st k : Text) (info : ProcessGroupInfo) (d : Dict ProcessGroupInfo)
    → hosts_of st (set k info d) ≡ (if text_eq k st then info.hosts else hosts_of st d)
unfolding hosts_of
hosts_of-set st k info d = ground (arith, get?-set st k info d)

-- A write that keeps the hosts of a step on record keeps everybody's.
pub hosts_of-set_same :
    (st k : Text) (info : ProcessGroupInfo) (d : Dict ProcessGroupInfo)
    → info.hosts ≡ hosts_of k d
    → hosts_of st (set k info d) ≡ hosts_of st d
hosts_of-set_same st k info d e = ground (arith, hosts_of-set st k info d, text_eq_iff k st)

pub record Accounts (hosts free_hosts : List Text) (allocated_hosts : Dict Text)
    (queued_steps : Dict DragonRunRequest) (running_steps : List Text)
    (group_infos : Dict ProcessGroupInfo) (next_step : ℕ) : Type 0 where
  -- no two nodes have one name
  pub names : (h : Text) → count h hosts ≤ 1
  -- each host is either free, once, or allocated
  pub conserved : (h : Text) → count h free_hosts + held h allocated_hosts ≡ count h hosts
  -- a running step is allocated on exactly the hosts on its record
  pub on_record :
      (st h : Text)
      → count st running_steps ≡ 1
      → count h (hosts_of st group_infos) ≡ owned st h allocated_hosts
  -- no host is allocated to a step that is not running
  pub owners_run : (st h : Text) → count st running_steps ≡ 0 → owned st h allocated_hosts ≡ 0
  -- a step is running, or queued, once at most, and never both
  pub runs_once : (st : Text) → count st running_steps ≤ 1
  pub queued_once : (st : Text) → count st (keys queued_steps) ≤ 1
  pub apart : (st : Text) → 1 ≤ count st (keys queued_steps) → count st running_steps ≡ 0
  -- all of these are on record, under names that were given out before
  pub running_known : (st : Text) → count st running_steps ≡ 1 → contains st group_infos ≡ true
  pub queued_known : (st : Text) → 1 ≤ count st (keys queued_steps) → contains st group_infos ≡ true
  pub fresh :
      (short_id : Text) (n : ℕ)
      → next_step ≤ n
      → contains (step_name short_id n) group_infos ≡ false

abbrev pub Inv : DragonBackend → Type 0
Inv s =
    Accounts s.hosts s.free_hosts s.allocated_hosts s.queued_steps s.running_steps s.group_infos
      s.next_step

-- The accounts do not depend on what is recorded of a step but its hosts.
pub Inv-infos :
    (s : DragonBackend) (infos : Dict ProcessGroupInfo)
    → ((st : Text) → hosts_of st infos ≡ hosts_of st s.group_infos)
    → ((st : Text) → contains st infos ≡ contains st s.group_infos)
    → Inv s
    → Inv (record s { group_infos = infos })
Inv-infos s infos hosts steps v = record {
  names = v.names;
  conserved = v.conserved;
  on_record = λ st h r. ground (arith, hosts st, v.on_record st h);
  owners_run = v.owners_run;
  runs_once = v.runs_once;
  queued_once = v.queued_once;
  apart = v.apart;
  running_known = λ st r. ground (arith, steps st, v.running_known st);
  queued_known = λ st q. ground (arith, steps st, v.queued_known st);
  fresh = λ short_id n le. ground (arith, steps (step_name short_id n), v.fresh short_id n);
}

-- Overwriting the record of a known step by one with the same hosts changes no hosts.
pub contains-set_known :
    (st k : Text) (info info' : ProcessGroupInfo) (d : Dict ProcessGroupInfo)
    → get? k d ≡ some info
    → contains st (set k info' d) ≡ contains st d
contains-set_known st k info info' d e =
    ground (arith, contains-set st k info' d, get?-contains k d info, text_eq_iff k st)

-- A runtime in which the PUIDs of a launched group can be read and its streams redirected.
abbrev pub IsHealthy : World → Type 0
IsHealthy world =
    (st : Text) (group : ProcessGroup ProcessTemplate)
    → ((world.launch st group).puids ≢ none) × ((world.launch st group).redirects ≡ true)
