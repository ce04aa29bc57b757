-- ===== src/Control/Databases.antt =====
-- control/jobmanager.py: the hosts and the addresses of databases, and the handler of an interrupt.
-- The address of a host is looked up outside the program and is a parameter.
pub mod Addresses
use smart_sim.Common.{
  ℕ, Bool, true, false, ◌&&◌, not, List, [], ◌∷◌, ◌++◌, map, Option, none, some, Text, codes,
  if◌then◌else◌, ltb,
}
use smart_sim.Common.Dict.{Dict, get?, set, values}
use smart_sim.Common.Decimal.{show}
use smart_sim.Status.{is_terminal}
use smart_sim.Control.Job.{Job, Kind, db_node, orchestrator, job_entity, other}
use smart_sim.Control.Manager.{Manager, active, number_active}

-- What set_db_hosts reads of a shard and of a database.
pub record DbNode : Type 0 where
  pub name : Text
  pub is_mpmd : Bool
  pub host : Text
  pub hosts : List Text

pub record Orchestrator : Type 0 where
  pub name : Text
  pub batch : Bool
  pub hosts : List Text
  pub entities : List DbNode

-- self.db_jobs[name].hosts = hosts; `none` where Python raises KeyError.
unfoldable pub set_hosts : Text → List Text → Manager → Option Manager
set_hosts name hosts m = elim (get? name m.db_jobs) [
  | none ↦ none
  | some job ↦ some (record m { db_jobs = set name (record job { hosts = hosts }) m.db_jobs })
]

abbrev pub node_hosts : DbNode → List Text
node_hosts node = if node.is_mpmd then node.hosts else node.host ∷ []

unfoldable pub set_node_hosts : List DbNode → Manager → Option Manager
unfolding set_hosts
set_node_hosts [] m = some m
set_node_hosts (node ∷ nodes) m = elim (set_hosts node.name (node_hosts node) m) [
  | none ↦ none
  | some n ↦ set_node_hosts nodes n
]

unfoldable pub set_db_hosts : Orchestrator → Manager → Option Manager
unfolding set_node_hosts
set_db_hosts db m = if db.batch then set_hosts db.name db.hosts m else set_node_hosts db.entities m

-- ":".join((ip, str(port)))
abbrev pub address : (Text → Text) → Text → ℕ → Text
address get_ip host port = get_ip host ++ b':' ∷ show port

-- The addresses of all pairs of a host and a port, the ports of a host together.
unfoldable pub addresses_of : (Text → Text) → List Text → List ℕ → List Text
addresses_of get_ip [] ports = []
addresses_of get_ip (host ∷ hosts) ports =
    map (address get_ip host) ports ++ addresses_of get_ip hosts ports

-- d.get(k, [])
unfoldable pub get_list : Text → Dict (List Text) → List Text
get_list k d = elim (get? k d) [ none ↦ [] | some xs ↦ xs ]

unfoldable pub extend : Text → List Text → Dict (List Text) → Dict (List Text)
unfolding get_list
extend k xs d = set k (get_list k d ++ xs) d

-- One round over db_jobs: a job of another entity is passed over.
unfoldable pub add_addresses : (Text → Text) → Job → Dict (List Text) → Dict (List Text)
unfolding extend addresses_of
add_addresses get_ip job d = elim job.entity.kind [
  | db_node identifier ports ↦ extend identifier (addresses_of get_ip job.hosts ports) d
  | orchestrator identifier ports ↦ extend identifier (addresses_of get_ip job.hosts ports) d
  | job_entity ↦ d
  | other ↦ d
]

unfoldable pub addresses_loop : (Text → Text) → List Job → Dict (List Text) → Dict (List Text)
addresses_loop get_ip [] d = d
addresses_loop get_ip (job ∷ jobs) d = addresses_loop get_ip jobs (add_addresses get_ip job d)

unfoldable pub get_db_host_addresses : (Text → Text) → Manager → Dict (List Text)
unfolding addresses_loop
get_db_host_addresses get_ip m = addresses_loop get_ip (values m.db_jobs) []

-- The jobs that are stopped on an interrupt.
unfoldable pub to_stop : List Job → List Text
to_stop [] = []
to_stop (job ∷ jobs) =
    let rest = to_stop jobs in if is_terminal job.status then rest else job.name ∷ rest

abbrev is_set : Option Text → Bool
is_set none = false
is_set (some launcher) = true

-- The names of the steps that the handler has the launcher stop, in order.
unfoldable pub signal_interrupt : Manager → List Text
unfolding to_stop
signal_interrupt m =
    if m.actively_monitoring
      && (ltb 0 (number_active m) && (m.kill_on_interrupt && is_set m.launcher))
    then to_stop (values (active m))
    else []
