-- ===== src/Dragon/Hosts/Refreshes.antt =====
-- `_refresh_statuses` and the accounts.
use smart_sim.Common.{
  ℕ, ◌≤◌, true, List, [], ◌∷◌, ◌++◌, some, Text, text_eq, text_eq_refl, count, if◌then◌else◌, ◌≡◌,
  refl, sym, ap, ◌∙◌, arith,
}
use smart_sim.Common.Dict.{Dict, get?, set, contains, contains-get?}
use smart_sim.Dragon.State.{ProcessGroupInfo, DragonBackend, World, heartbeat}
use smart_sim.Dragon.Start.{returned}
use smart_sim.Dragon.Refresh.{
  remove_first, release_hosts, retire, retire_all, forget_groups, poll, poll_all, polled,
  refresh_statuses,
}
use smart_sim.Status.{is_terminal}
use smart_sim.Dragon.Server.{step_name}
use smart_sim.Dragon.Hosts.{
  Inv, owned, hosts_of, hosts_of-set_same, hosts_of-get?, contains-set_known, Inv-infos,
}
use smart_sim.Dragon.Hosts.Release.{
  count-remove_first, release_hosts-held, release_hosts-owned, release_hosts-keeps,
}

abbrev pub delisted : Text → DragonBackend → DragonBackend
delisted id s = record s {
  running_steps = remove_first id s.running_steps;
  completed_steps = s.completed_steps ++ id ∷ [];
}

-- What `retire` makes of a step that is on record.
abbrev pub retired : Text → ProcessGroupInfo → DragonBackend → DragonBackend
retired id info s = record (delisted id s) {
  free_hosts = (release_hosts info.hosts (delisted id s)).free_hosts;
  allocated_hosts = (release_hosts info.hosts (delisted id s)).allocated_hosts;
  group_infos = set id (forget_groups info) s.group_infos;
}

pub retire-retired :
    (id : Text) (info : ProcessGroupInfo) (s : DragonBackend)
    → get? id s.group_infos ≡ some info
    → retire id s ≡ retired id info s
unfolding retire
retire-retired id info s e =
    rw (e, retire)
      (ap {A = DragonBackend} {B = DragonBackend}
        (λ t. record t { group_infos = set id (forget_groups info) t.group_infos })
        (release_hosts-keeps info.hosts (delisted id s)))

module _ (id : Text) (info : ProcessGroupInfo) (s : DragonBackend) (v : Inv s)
    (e : get? id s.group_infos ≡ some info) (runs : count id s.running_steps ≡ 1) where
  exactly : (h : Text) → count h info.hosts ≡ owned id h s.allocated_hosts
  unfolding hosts_of
  exactly h = ground (arith, v.on_record id h)

  retired-running :
      (st : Text)
      → count st (remove_first id s.running_steps)
        ≡ (if text_eq id st then 0 else count st s.running_steps)
  retired-running st = count-remove_first st id s.running_steps (v.runs_once id)

  retired-hosts_of :
      (st : Text)
      → hosts_of st (set id (forget_groups info) s.group_infos) ≡ hosts_of st s.group_infos
  unfolding hosts_of
  retired-hosts_of st = hosts_of-set_same st id _ s.group_infos (ground arith)

  retired-contains :
      (st : Text)
      → contains st (set id (forget_groups info) s.group_infos) ≡ contains st s.group_infos
  retired-contains st = contains-set_known st id info (forget_groups info) s.group_infos e

  retired-Inv : Inv (retired id info s)
  retired-Inv = record {
    names = v.names;
    conserved = λ h. release_hosts-held id info.hosts (delisted id s) exactly h ∙ v.conserved h;
    on_record = λ st h r. ground (
      arith,
      retired-running st,
      retired-hosts_of st,
      release_hosts-owned id info.hosts (delisted id s) exactly st h,
      v.on_record st h,
    );
    owners_run = λ st h r. ground (
      arith,
      retired-running st,
      release_hosts-owned id info.hosts (delisted id s) exactly st h,
      v.owners_run st h,
    );
    runs_once = λ st. ground (arith, retired-running st, v.runs_once st);
    queued_once = v.queued_once;
    apart = λ st q. ground (arith, retired-running st, v.apart st);
    running_known =
        λ st r. ground (arith, retired-running st, retired-contains st, v.running_known st);
    queued_known = λ st q. ground (arith, retired-contains st, v.queued_known st);
    fresh = λ short n le. ground (arith, retired-contains (step_name short n), v.fresh short n);
  }

  retire-Inv : Inv (retire id s)
  retire-Inv = rw (retire-retired id info s e) retired-Inv

  retire-running :
      (st : Text)
      → count st (retire id s).running_steps
        ≡ (if text_eq id st then 0 else count st s.running_steps)
  retire-running st = rw (retire-retired id info s e) (retired-running st)

-- Retiring running steps, each once, keeps the accounts.
retire_all-Inv :
    (terminated : List Text) (s : DragonBackend)
    → Inv s
    → ((st : Text) → count st terminated ≤ count st s.running_steps)
    → Inv (retire_all terminated s)
unfolding retire_all count
retire_all-Inv [] s v sub = v
retire_all-Inv (id ∷ steps) s v sub =
    let runs : count id s.running_steps ≡ 1 =
      ground (arith, sub id, v.runs_once id, text_eq_refl id) in
    let (info, e) = contains-get? id s.group_infos (v.running_known id runs) in
    retire_all-Inv steps (retire id s) (retire-Inv id info s v e runs)
      λ st. ground (arith, sub st, v.runs_once st, retire-running id info s v e runs st)

poll-hosts :
    (world : World) (id : Text) (info : ProcessGroupInfo) → (poll world id info).hosts ≡ info.hosts
unfolding poll
poll-hosts world id info = ground arith

-- The first loop ends normally on steps that are on record; it leaves their hosts alone.
record PollKeeps (steps : List Text) (infos infos' : Dict ProcessGroupInfo) (done : List Text)
    : Type 0 where
  same_hosts : (st : Text) → hosts_of st infos' ≡ hosts_of st infos
  same_steps : (st : Text) → contains st infos' ≡ contains st infos
  among : (st : Text) → count st done ≤ count st steps

note-PollKeeps :
    (id : Text) (info : ProcessGroupInfo) (steps : List Text)
    (infos infos₁ infos' : Dict ProcessGroupInfo) (done : List Text)
    → ((st : Text) → hosts_of st infos₁ ≡ hosts_of st infos)
    → ((st : Text) → contains st infos₁ ≡ contains st infos)
    → PollKeeps steps infos₁ infos' done
    → PollKeeps (id ∷ steps) infos infos' (if is_terminal info.status then id ∷ done else done)
unfolding count
note-PollKeeps id info steps infos infos₁ infos' done h c k = record {
  same_hosts = λ st. k.same_hosts st ∙ h st;
  same_steps = λ st. k.same_steps st ∙ c st;
  among = λ st. ground (arith, k.among st);
}

poll_all-PollKeeps :
    (world : World) (steps : List Text) (infos : Dict ProcessGroupInfo)
    → ((st : Text) → 1 ≤ count st steps → contains st infos ≡ true)
    → (infos' : Dict ProcessGroupInfo) × (done : List Text) × (poll_all world steps infos
        ≡ polled infos' done)
      × PollKeeps steps infos infos' done
unfolding poll_all count
poll_all-PollKeeps world [] infos known = (
  infos,
  [],
  refl,
  record { same_hosts = λ st. refl; same_steps = λ st. refl; among = λ st. omega arith },
)
poll_all-PollKeeps world (id ∷ steps) infos known =
    let (info, e) = contains-get? id infos (known id (ground (arith, text_eq_refl id))) in
    let info' = poll world id info in
    let (infos', done, r, k) =
      poll_all-PollKeeps world steps (set id info' infos)
        (λ st n. ground (arith, contains-set_known st id info info' infos e, known st)) in
    (
      infos',
      (if is_terminal info'.status then id ∷ done else done),
      rw (e, poll_all, r),
      note-PollKeeps id info' steps infos (set id info' infos) infos' done
          (λ st.
            hosts_of-set_same st id info' infos
              (poll-hosts world id info ∙ sym (hosts_of-get? id infos info e)))
          (λ st. contains-set_known st id info info' infos e) k,
    )

-- The refresh ends normally and keeps the accounts, whatever the runtime answers.
pub refresh_statuses-Inv :
    (now : ℕ) (world : World) (s : DragonBackend)
    → Inv s
    → (s' : DragonBackend) × (refresh_statuses now world s ≡ returned s') × Inv s'
unfolding refresh_statuses
refresh_statuses-Inv now world s v =
    let (infos', done, r, k) =
      poll_all-PollKeeps world s.running_steps s.group_infos
        (λ st n. v.running_known st (omega (arith, v.runs_once st))) in
    (
      retire_all done (record (heartbeat now s) { group_infos = infos' }),
      rw (r, refresh_statuses),
      retire_all-Inv done (record (heartbeat now s) { group_infos = infos' })
          (Inv-infos (heartbeat now s) infos' k.same_hosts k.same_steps v) k.among,
    )
