-- ===== src/Dragon/Hosts/Requests.antt =====
-- `process_request` and the accounts.
use smart_sim.Common.{
  ℕ, ◌+◌, true, false, [], Text, text_eq_iff, count, ◌≡◌, refl, ◌⊎◌, arith, inl, inr,
}
use smart_sim.Common.Dict.{
  set, contains, count-keys-set, contains-set, contains-count, count-contains,
}
use smart_sim.Common.Decimal.{number_after_dash}
use smart_sim.Dragon.State.{DragonRunRequest, ProcessGroupInfo, DragonBackend}
use smart_sim.Dragon.Policies.{Honor, honorable, refused, value_error, can_honor}
use smart_sim.Dragon.Shutdown.{update_shutdown_status}
use smart_sim.Dragon.Server.{
  DragonRequest, run, update_status, stop, handshake, bootstrap, shutdown, process_run,
  process_request, step_name,
}
use smart_sim.Dragon.Hosts.{Inv, hosts_of-set}

step_name-injective : (a b : Text) (m n : ℕ) → step_name a m ≡ step_name b n → m ≡ n
unfolding step_name
step_name-injective a b m n e = number_after_dash a b m n e

module _ (short : Text) (s : DragonBackend) (v : Inv s) where
  abbrev id : Text
  id = step_name short s.next_step

  unknown : contains id s.group_infos ≡ false
  unknown = v.fresh short s.next_step (omega arith)

  idle : count id s.running_steps ≡ 0
  idle = ground (arith, v.runs_once id, v.running_known id, unknown)

  -- A new step is on record under a new name, without hosts.
  recorded-Inv :
      (info : ProcessGroupInfo)
      → info.hosts ≡ []
      → Inv (record s { group_infos = set id info s.group_infos; next_step = s.next_step + 1 })
  recorded-Inv info no_hosts = record {
    names = v.names;
    conserved = v.conserved;
    on_record = λ st h r.
        ground
          (arith, hosts_of-set st id info s.group_infos, v.on_record st h, idle, text_eq_iff id st);
    owners_run = v.owners_run;
    runs_once = v.runs_once;
    queued_once = v.queued_once;
    apart = v.apart;
    running_known =
        λ st r. ground (arith, contains-set st id info s.group_infos, v.running_known st r);
    queued_known =
        λ st q. ground (arith, contains-set st id info s.group_infos, v.queued_known st q);
    fresh = λ other n le. ground (
      arith,
      contains-set (step_name other n) id info s.group_infos,
      v.fresh other n (omega arith),
      text_eq_iff id (step_name other n),
      step_name-injective short other s.next_step n,
    );
  }

  queued-Inv :
      (request : DragonRunRequest) (info : ProcessGroupInfo)
      → info.hosts ≡ []
      → Inv (record s {
        group_infos = set id info s.group_infos;
        next_step = s.next_step + 1;
        queued_steps = set id request s.queued_steps;
      })
  queued-Inv request info no_hosts =
      let r = recorded-Inv info no_hosts in
      let not_queued : contains id s.queued_steps ≡ false =
        ground (arith, contains-count id s.queued_steps, v.queued_known id, unknown) in
      let counts = λ (st : Text). count-keys-set st id request s.queued_steps in
      record {
        names = v.names;
        conserved = v.conserved;
        on_record = r.on_record;
        owners_run = v.owners_run;
        runs_once = v.runs_once;
        queued_once = λ st. ground (
          arith,
          counts st,
          v.queued_once st,
          count-contains st s.queued_steps,
          not_queued,
          text_eq_iff id st,
        );
        apart = λ st q. ground (arith, counts st, v.apart st, idle, text_eq_iff id st);
        running_known = r.running_known;
        queued_known = λ st q.
            ground (arith, counts st, contains-set st id info s.group_infos, v.queued_known st);
        fresh = r.fresh;
      }

-- A number that is spent without a step is no loss.
spent-Inv : (s : DragonBackend) → Inv s → Inv (record s { next_step = s.next_step + 1 })
spent-Inv s v = record {
  names = v.names;
  conserved = v.conserved;
  on_record = v.on_record;
  owners_run = v.owners_run;
  runs_once = v.runs_once;
  queued_once = v.queued_once;
  apart = v.apart;
  running_known = v.running_known;
  queued_known = v.queued_known;
  fresh = λ short n le. v.fresh short n (omega arith);
}

pub Honor-cases :
    (h : Honor) → (h ≡ honorable) ⊎ (((m : Text) × (h ≡ refused m)) ⊎ (h ≡ value_error))
Honor-cases honorable = inl refl
Honor-cases (refused m) = inr (inl (m, refl))
Honor-cases value_error = inr (inr refl)

process_run-Inv :
    (short : Text) (request : DragonRunRequest) (s : DragonBackend)
    → Inv s
    → Inv (process_run short request s).0
unfolding process_run
process_run-Inv short request s v = elim (Honor-cases (can_honor s request)) [
  | inl e ↦ rw (e, process_run) (queued-Inv short s v request _ refl)
  | inr (inl (m, e)) ↦ rw (e, process_run) (recorded-Inv short s v _ refl)
  | inr (inr e) ↦ rw (e, process_run) (spent-Inv s v)
]

-- No request upsets the accounts.
pub process_request-Inv :
    (now : ℕ) (short : Text) (r : DragonRequest) (s : DragonBackend)
    → Inv s
    → Inv (process_request now short r s).0
unfolding process_request update_shutdown_status
process_request-Inv now short (run request) s v = process_run-Inv short request s v
process_request-Inv now short (update_status ids) s v = v
process_request-Inv now short (stop step_id) s v = v
process_request-Inv now short handshake s v = v
process_request-Inv now short (bootstrap address) s v = v
process_request-Inv now short (shutdown true frontend) s v = v
process_request-Inv now short (shutdown false frontend) s v = v
