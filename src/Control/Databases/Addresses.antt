-- ===== src/Control/Databases/Addresses.antt =====
-- The addresses that get_db_host_addresses gives for the databases of jobmanager.py.
use smart_sim.Common.{
  mem_text-append, ℕ, ◌≡◌, refl, ◌∙◌, Bool, true, false, ◌||◌, ◌&&◌, ap, List, [], ◌∷◌, ◌++◌, map,
  Option, none, some, Text, text_eq, text_eq_iff, mem_text, if◌then◌else◌, arith, any,
}
use smart_sim.Common.Dict.{Dict, get?, get?-set, values}
use smart_sim.Control.Job.{Job, Kind, db_node, orchestrator, job_entity, other}
use smart_sim.Control.Manager.{Manager}
use smart_sim.Control.Databases.{
  address, addresses_of, get_list, extend, add_addresses, addresses_loop, get_db_host_addresses,
}

-- The identifier and the ports of a database, `none` for another entity.
unfoldable pub database_of : Kind → Option (Text × List ℕ)
database_of (db_node identifier ports) = some (identifier, ports)
database_of (orchestrator identifier ports) = some (identifier, ports)
database_of job_entity = none
database_of other = none

-- Whether a job is one of this database, and one of its hosts and one of its ports have the address.
unfoldable pub serves : (Text → Text) → Text → Text → Job → Bool
unfolding database_of
serves get_ip id a job = elim (database_of job.entity.kind) [
  | none ↦ false
  | some (identifier, ports) ↦
      text_eq identifier id
      && any (λ host. any (λ port. text_eq (address get_ip host port) a) ports) job.hosts
]

mem-ports :
    (get_ip : Text → Text) (a host : Text) (ports : List ℕ)
    → mem_text a (map (address get_ip host) ports)
      ≡ any (λ port. text_eq (address get_ip host port) a) ports
unfolding mem_text
mem-ports get_ip a host [] = refl
mem-ports get_ip a host (p ∷ ports) =
    ap (◌||◌ (text_eq (address get_ip host p) a)) (mem-ports get_ip a host ports)

mem-addresses_of :
    (get_ip : Text → Text) (a : Text) (hosts : List Text) (ports : List ℕ)
    → mem_text a (addresses_of get_ip hosts ports)
      ≡ any (λ host. any (λ port. text_eq (address get_ip host port) a) ports) hosts
unfolding addresses_of mem_text
mem-addresses_of get_ip a [] ports = refl
mem-addresses_of get_ip a (x ∷ hosts) ports =
    rw (mem_text-append, mem-ports, mem-addresses_of get_ip a hosts ports)

get_list-extend :
    (j k : Text) (xs : List Text) (d : Dict (List Text))
    → get_list j (extend k xs d) ≡ (if text_eq k j then get_list k d ++ xs else get_list j d)
unfolding extend get_list
get_list-extend j k xs d = ground (arith, get?-set j k (get_list k d ++ xs) d)

-- What one job adds to the addresses of a database.
mem-extend :
    (a id k : Text) (xs : List Text) (d : Dict (List Text))
    → mem_text a (get_list id (extend k xs d))
      ≡ ((text_eq k id && mem_text a xs) || mem_text a (get_list id d))
mem-extend a id k xs d =
    ground (arith, get_list-extend id k xs d, mem_text-append a (get_list k d) xs, text_eq_iff k id)

mem-add_addresses :
    (get_ip : Text → Text) (id a : Text) (job : Job) (d : Dict (List Text))
    → mem_text a (get_list id (add_addresses get_ip job d))
      ≡ (serves get_ip id a job || mem_text a (get_list id d))
unfolding add_addresses serves database_of
mem-add_addresses get_ip id a job d =
    let hosts = job.hosts in
    elim job.entity.kind
      as (λ k.
        mem_text a (
          get_list id (elim k [
            | db_node identifier ports ↦ extend identifier (addresses_of get_ip hosts ports) d
            | orchestrator identifier ports ↦ extend identifier (addresses_of get_ip hosts ports) d
            | job_entity ↦ d
            | other ↦ d
          ]))
        ≡ ((elim (database_of k) [
          | none ↦ false
          | some (identifier, ports) ↦
              text_eq identifier id
              && any (λ host. any (λ port. text_eq (address get_ip host port) a) ports) hosts
        ])
            || mem_text a (get_list id d))) [
              | db_node identifier ports ↦ rw (mem-extend, mem-addresses_of)
              | orchestrator identifier ports ↦ rw (mem-extend, mem-addresses_of)
              | job_entity ↦ refl
              | other ↦ refl
            ]

addresses_loop-mem :
    (get_ip : Text → Text) (id a : Text) (jobs : List Job) (d : Dict (List Text))
    → mem_text a (get_list id (addresses_loop get_ip jobs d))
      ≡ (any (serves get_ip id a) jobs || mem_text a (get_list id d))
unfolding addresses_loop
addresses_loop-mem get_ip id a [] d = refl
addresses_loop-mem get_ip id a (job ∷ jobs) d = ground (
  arith,
  addresses_loop-mem get_ip id a jobs (add_addresses get_ip job d),
  mem-add_addresses get_ip id a job d,
)

-- An address is listed under an identifier exactly if some database job has this identifier and the
-- address is that of one of the job's hosts with one of the database's ports.
pub get_db_host_addresses-serves :
    (get_ip : Text → Text) (m : Manager) (id a : Text)
    → mem_text a (get_list id (get_db_host_addresses get_ip m))
      ≡ any (serves get_ip id a) (values m.db_jobs)
unfolding get_db_host_addresses mem_text get_list get?
get_db_host_addresses-serves get_ip m id a =
    addresses_loop-mem get_ip id a (values m.db_jobs) []
    ∙ or_false (any (serves get_ip id a) (values m.db_jobs))
  where
    or_false : (b : Bool) → (b || false) ≡ b
    or_false true = refl
    or_false false = refl
