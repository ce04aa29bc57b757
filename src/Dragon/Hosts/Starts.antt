-- ===== src/Dragon/Hosts/Starts.antt =====
-- `_start_steps` and the accounts, in a runtime that is healthy.
use smart_sim.Common.{
  ℕ, ◌+◌, ◌≤◌, true, false, List, [], ◌∷◌, ◌++◌, Option, none, some, Text, text_eq, text_eq_iff,
  text_eq_refl, count, count-append, if◌then◌else◌, ◌≡◌, ◌≢◌, map, ◌∙◌, arith, inl, inr,
  Option-cases, Bool-cases, length, ◌||◌,
}
use smart_sim.Common.Dict.{Dict, get?, set, contains, keys, contains-set, get?-set, once-set}
use smart_sim.Dragon.State.{DragonRunRequest, ProcessGroupInfo, Launch, DragonBackend, World}
use smart_sim.Dragon.Policies.{run_group, run_policies, host_policy, create_redirect_workers}
use smart_sim.Dragon.Start.{
  take_hosts, launch_step, going, started_info, launch_status, launched_puids, distinct_puids,
  record_start, can_redirect,
}
use smart_sim.Dragon.Server.{step_name}
use smart_sim.Dragon.Hosts.{Inv, Accounts, IsHealthy, hosts_of, hosts_of-set}
use smart_sim.Dragon.Hosts.Allocate.{AtMostOnce, take_hosts-held, take_hosts-owned}

-- The loop has put the step on record with these hosts, and changed nothing else.
pub record Launched (id : Text) (hosts : List Text) (s : DragonBackend)
    (infos : Dict ProcessGroupInfo) : Type 0 where
  pub recorded :
      (st : Text) → hosts_of st infos ≡ (if text_eq id st then hosts else hosts_of st s.group_infos)
  pub known : (st : Text) → contains st infos ≡ (text_eq id st || contains st s.group_infos)
  pub others : (st : Text) → text_eq id st ≡ false → get? st infos ≡ get? st s.group_infos
  pub once :
      ((st : Text) → count st (keys s.group_infos) ≤ 1) → (st : Text) → count st (keys infos) ≤ 1

abbrev pub after_launch : Text → Dict ProcessGroupInfo → DragonBackend → DragonBackend
after_launch id infos s = record s {
  group_infos = infos;
  running_steps = s.running_steps ++ id ∷ [];
}

set-Launched :
    (id : Text) (info : ProcessGroupInfo) (s : DragonBackend)
    → Launched id info.hosts s (set id info s.group_infos)
set-Launched id info s = record {
  recorded = λ st. hosts_of-set st id info s.group_infos;
  known = λ st. contains-set st id info s.group_infos;
  others = λ st other. ground (arith, get?-set st id info s.group_infos);
  once = λ o st. once-set st id info s.group_infos o;
}

set_twice-Launched :
    (id : Text) (info info' : ProcessGroupInfo) (s : DragonBackend)
    → Launched id info'.hosts s (set id info' (set id info s.group_infos))
set_twice-Launched id info info' s = record {
  recorded = λ st. ground (
    arith,
    hosts_of-set st id info' (set id info s.group_infos),
    hosts_of-set st id info s.group_infos,
  );
  known = λ st. ground (
    arith,
    contains-set st id info' (set id info s.group_infos),
    contains-set st id info s.group_infos,
  );
  others = λ st other.
      ground (
        arith,
        get?-set st id info' (set id info s.group_infos),
        get?-set st id info s.group_infos,
      );
  once = λ o st.
      once-set st id info' (set id info s.group_infos) (λ j. once-set j id info s.group_infos o);
}

launched_puids-some :
    (l : Launch) → l.puids ≢ none → (puids : List (Option ℕ)) × (launched_puids l ≡ some puids)
unfolding launched_puids
launched_puids-some l h = elim (Option-cases l.puids) [
  | inl e ↦ absurd (h e)
  | inr (puids, e) ↦
      (distinct_puids (puids ++ map (λ p. p.0) l.inactive_puids), rw (e, launched_puids))
]

-- In a healthy runtime the launch of a step on its hosts is put on record.
pub launch_step-Launched :
    (world : World) (id : Text) (request : DragonRunRequest) (first : Text) (rest : List Text)
    (s : DragonBackend) (started : List Text)
    → IsHealthy world
    → (infos : Dict ProcessGroupInfo) × (launch_step world id request first rest s started
        ≡ going (after_launch id infos s) (started ++ id ∷ []))
      × Launched id (first ∷ rest) s infos
unfolding launch_step record_start
launch_step-Launched world id request first rest s started healthy =
    let launch = world.launch id (run_group request first rest) in
    let policies = run_policies request (first ∷ rest) in
    let (puids, e) = launched_puids-some launch (healthy id (run_group request first rest)).0 in
    let redirects : launch.redirects ≡ true = (healthy id (run_group request first rest)).1 in
    let info =
      started_info (run_group request first rest) (launch_status launch) (first ∷ rest) puids in
    elim (Bool-cases (can_redirect launch policies puids)) [
      | inl c ↦ (
        _,
        rw (e, c, redirects, launch_step),
        set_twice-Launched id info
            (record info {
              redir_workers = some (
                  create_redirect_workers (host_policy first) policies puids request.output_file
                    request.error_file);
            })
            s,
      )
      | inr c ↦ (set id info s.group_infos, rw (e, c, launch_step), set-Launched id info s)
    ]

module _ (id : Text) (request : DragonRunRequest) (rest : Dict DragonRunRequest) (s : DragonBackend)
    (v : Inv (record s { queued_steps = (id, request) ∷ rest })) where
  -- A step that is passed over stays where it is.
  pub skipped-Inv : Inv (record s { queued_steps = rest })
  unfolding keys count
  skipped-Inv = record {
    names = v.names;
    conserved = v.conserved;
    on_record = v.on_record;
    owners_run = v.owners_run;
    runs_once = v.runs_once;
    queued_once = λ st. omega (arith, v.queued_once st);
    apart = λ st q. v.apart st (omega arith);
    running_known = v.running_known;
    queued_known = λ st q. v.queued_known st (omega arith);
    fresh = v.fresh;
  }

  pub head-apart : count id s.running_steps ≡ 0
  unfolding keys count
  head-apart = v.apart id (ground (arith, text_eq_refl id))

  head-known : contains id s.group_infos ≡ true
  unfolding keys count
  head-known = v.queued_known id (ground (arith, text_eq_refl id))

  tail-other : (st : Text) → 1 ≤ count st (keys rest) → text_eq id st ≡ false
  unfolding keys count
  tail-other st q = ground (arith, v.queued_once st)

  module _ (n : ℕ) (fits : n ≤ length s.free_hosts) (infos : Dict ProcessGroupInfo)
      (l : Launched id (take_hosts id n s.free_hosts s.allocated_hosts).to_allocate s infos) where
    once : AtMostOnce s.free_hosts s.allocated_hosts
    once h = omega (arith, v.conserved h, v.names h)

    count-running :
        (st : Text)
        → count st (s.running_steps ++ id ∷ [])
          ≡ count st s.running_steps + (if text_eq id st then 1 else 0)
    unfolding count
    count-running st = omega (arith, count-append st s.running_steps (id ∷ []))

    -- A step that is launched takes its hosts over.
    pub launched-Inv :
        let a = take_hosts id n s.free_hosts s.allocated_hosts in
        Accounts s.hosts a.free_hosts a.allocated_hosts rest
          (s.running_steps ++ id ∷ [])
          infos
          s.next_step
    launched-Inv = record {
      names = v.names;
      conserved = λ h. take_hosts-held id n s.free_hosts s.allocated_hosts once h ∙ v.conserved h;
      on_record = λ st h r. ground (
        arith,
        count-running st,
        l.recorded st,
        take_hosts-owned id n s.free_hosts s.allocated_hosts once st h,
        v.on_record st h,
        v.owners_run st h,
        head-apart,
        text_eq_iff id st,
      );
      owners_run = λ st h r. ground (
        arith,
        count-running st,
        take_hosts-owned id n s.free_hosts s.allocated_hosts once st h,
        v.owners_run st h,
      );
      runs_once =
          λ st. ground (arith, count-running st, v.runs_once st, head-apart, text_eq_iff id st);
      queued_once = skipped-Inv.queued_once;
      apart = λ st q. ground (arith, count-running st, tail-other st q, skipped-Inv.apart st q);
      running_known = λ st r. ground (arith, count-running st, l.known st, v.running_known st);
      queued_known = λ st q. ground (arith, l.known st, skipped-Inv.queued_known st q);
      fresh = λ short_id k le. ground (
        arith,
        l.known (step_name short_id k),
        v.fresh short_id k le,
        head-known,
        text_eq_iff id (step_name short_id k),
      );
    }
