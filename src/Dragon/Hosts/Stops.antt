-- ===== src/Dragon/Hosts/Stops.antt =====
-- `_stop_steps` and the accounts.
use smart_sim.Common.{
  ℕ, List, [], ◌∷◌, some, Text, ◌≡◌, refl, sym, ◌∙◌, arith, inl, inr, Option-cases, Bool-cases,
}
use smart_sim.Common.Dict.{get?, set, del, contains, count-keys-del}
use smart_sim.Dragon.State.{ProcessGroupInfo, DragonBackend, World, heartbeat}
use smart_sim.Dragon.Stop.{stop_step, stop_all, stop_steps, withdraw, cancel}
use smart_sim.Dragon.Hosts.{Inv, hosts_of-set_same, hosts_of-get?, contains-set_known, Inv-infos}

-- Steps may leave the queue.
pub Inv-del :
    (id : Text) (s : DragonBackend)
    → Inv s
    → Inv (record s { queued_steps = del id s.queued_steps })
Inv-del id s v = record {
  names = v.names;
  conserved = v.conserved;
  on_record = v.on_record;
  owners_run = v.owners_run;
  runs_once = v.runs_once;
  queued_once = λ st. ground (arith, count-keys-del st id s.queued_steps, v.queued_once st);
  apart = λ st q. ground (arith, count-keys-del st id s.queued_steps, v.apart st);
  running_known = v.running_known;
  queued_known = λ st q. ground (arith, count-keys-del st id s.queued_steps, v.queued_known st);
  fresh = v.fresh;
}

withdraw-Inv :
    (world : World) (id : Text) (info : ProcessGroupInfo) (s : DragonBackend)
    → Inv s
    → Inv (withdraw world id info s) × ((withdraw world id info s).group_infos ≡ s.group_infos)
unfolding withdraw
withdraw-Inv world id info s v = elim (Bool-cases (contains id s.queued_steps)) [
  | inl queued ↦ rw queued (Inv-del id s v, refl)
  | inr other ↦ rw other (v, refl)
]

cancel-hosts : (info : ProcessGroupInfo) → (cancel info).hosts ≡ info.hosts
unfolding cancel
cancel-hosts info = refl

stop_step-Inv : (world : World) (id : Text) (s : DragonBackend) → Inv s → Inv (stop_step world id s)
unfolding stop_step
stop_step-Inv world id s v = elim (Option-cases (get? id s.group_infos)) [
  | inl e ↦ rw (e, stop_step) v
  | inr (info, e) ↦
      let (v', same) = withdraw-Inv world id info s v in
      let s' = withdraw world id info s in
      let e' : get? id s'.group_infos ≡ some info = rw same e in
      rw (e, stop_step)
        (Inv-infos s' (set id (cancel info) s'.group_infos)
          (λ st.
            hosts_of-set_same st id (cancel info) s'.group_infos
              (cancel-hosts info ∙ sym (hosts_of-get? id s'.group_infos info e')))
          (λ st. contains-set_known st id info (cancel info) s'.group_infos e') v')
]

stop_all-Inv :
    (world : World) (ids : List Text) (s : DragonBackend) → Inv s → Inv (stop_all world ids s)
unfolding stop_all
stop_all-Inv world [] s v = v
stop_all-Inv world (id ∷ ids) s v =
    stop_all-Inv world ids (stop_step world id s) (stop_step-Inv world id s v)

pub stop_steps-Inv :
    (now : ℕ) (world : World) (s : DragonBackend) → Inv s → Inv (stop_steps now world s)
unfolding stop_steps
stop_steps-Inv now world s v =
    stop_all-Inv world s.stop_requests (record (heartbeat now s) { stop_requests = [] }) v
