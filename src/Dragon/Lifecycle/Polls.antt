-- ===== src/Dragon/Lifecycle/Polls.antt =====
-- `_refresh_statuses`: what its two loops do to the records of the steps.
use smart_sim.Common.{
  ◌+◌, ◌≤◌, true, List, [], ◌∷◌, some, Text, text_eq, text_eq_iff, text_eq_refl, count,
  if◌then◌else◌, ◌≡◌, refl, arith, inl, inr, ◌∙◌, Bool-cases,
}
use smart_sim.Common.Dict.{
  Dict, get?, set, contains, keys, get?-set, once-set, contains-set, contains-get?,
}
use smart_sim.Status.{is_terminal}
use smart_sim.Dragon.State.{ProcessGroupInfo, DragonBackend, World}
use smart_sim.Dragon.Refresh.{poll, poll_all, polled, forget_groups, retire, retire_all}
use smart_sim.Dragon.Hosts.Release.{count-remove_first}
use smart_sim.Dragon.Hosts.Refreshes.{retire-retired}

-- What the first loop makes of the records, and which steps it finds terminated.
pub record Polls (world : World) (steps : List Text) (infos infos' : Dict ProcessGroupInfo)
    (done : List Text) : Type 0 where
  pub read :
      (st : Text) (info : ProcessGroupInfo)
      → 1 ≤ count st steps
      → get? st infos ≡ some info
      → (get? st infos' ≡ some (poll world st info))
        × (count st done ≡ (if is_terminal (poll world st info).status then 1 else 0))
  pub unread :
      (st : Text) → count st steps ≡ 0 → (get? st infos' ≡ get? st infos) × (count st done ≡ 0)
  pub once : (st : Text) → count st (keys infos') ≤ 1

note-Polls :
    (world : World) (id : Text) (info : ProcessGroupInfo) (steps : List Text)
    (infos infos' : Dict ProcessGroupInfo) (done : List Text)
    → count id steps ≡ 0
    → get? id infos ≡ some info
    → Polls world steps (set id (poll world id info) infos) infos' done
    → Polls world
        (id ∷ steps)
        infos
        infos'
        (if is_terminal (poll world id info).status then id ∷ done else done)
unfolding count
note-Polls world id info steps infos infos' done apart e r = record {
  read = λ st i h found. elim (Bool-cases (text_eq id st)) [
    | inl same ↦ ground (
      arith,
      text_eq_iff id st,
      (r.unread id apart).0,
      (r.unread id apart).1,
      get?-set id id (poll world id info) infos,
      text_eq_refl id,
    )
    | inr other ↦
        let later =
          r.read st i (ground arith) (ground (arith, get?-set st id (poll world id info) infos)) in
        (later.0, ground (arith, later.1))
  ];
  unread = λ st h. ground (
    arith,
    (r.unread st (ground arith)).0,
    (r.unread st (ground arith)).1,
    get?-set st id (poll world id info) infos,
  );
  once = r.once;
}

pub poll_all-Polls :
    (world : World) (steps : List Text) (infos : Dict ProcessGroupInfo)
    → ((st : Text) → count st steps ≤ 1)
    → ((st : Text) → 1 ≤ count st steps → contains st infos ≡ true)
    → ((st : Text) → count st (keys infos) ≤ 1)
    → (infos' : Dict ProcessGroupInfo) × (done : List Text) × (poll_all world steps infos
        ≡ polled infos' done)
      × Polls world steps infos infos' done
unfolding poll_all count
poll_all-Polls world [] infos distinct known once = (
  infos,
  [],
  refl,
  record { read = λ st i h e. absurd (omega arith); unread = λ st h. (refl, refl); once = once },
)
poll_all-Polls world (id ∷ steps) infos distinct known once =
    let (info, e) = contains-get? id infos (known id (ground (arith, text_eq_refl id))) in
    let infos₁ = set id (poll world id info) infos in
    let (infos', done, r, p) =
      poll_all-Polls world steps infos₁ (λ st. omega (arith, distinct st))
        (λ st h. ground (arith, contains-set st id (poll world id info) infos, known st))
        (λ st. once-set st id (poll world id info) infos once) in
    (
      infos',
      (if is_terminal (poll world id info).status then id ∷ done else done),
      rw (e, poll_all, r),
      note-Polls world id info steps infos infos' done
          (ground (arith, distinct id, text_eq_refl id)) e p,
    )

-- What the second loop does for one step.
pub record Retires (done : List Text) (s s' : DragonBackend) : Type 0 where
  pub forgotten :
      (st : Text) (info : ProcessGroupInfo)
      → 1 ≤ count st done
      → get? st s.group_infos ≡ some info
      → get? st s'.group_infos ≡ some (forget_groups info)
  pub kept : (st : Text) → count st done ≡ 0 → get? st s'.group_infos ≡ get? st s.group_infos
  pub leaves : (st : Text) → count st s'.running_steps + count st done ≡ count st s.running_steps
  pub same_queue : s'.queued_steps ≡ s.queued_steps
  pub once : (st : Text) → count st (keys s'.group_infos) ≤ 1

module _ (id : Text) (info : ProcessGroupInfo) (s : DragonBackend)
    (e : get? id s.group_infos ≡ some info) where
  retire-infos :
      (st : Text)
      → get? st (retire id s).group_infos
        ≡ (if text_eq id st then some (forget_groups info) else get? st s.group_infos)
  retire-infos st =
      rw (retire-retired id info s e) (get?-set st id (forget_groups info) s.group_infos)

  retire-running :
      (st : Text)
      → count id s.running_steps ≤ 1
      → count st (retire id s).running_steps
        ≡ (if text_eq id st then 0 else count st s.running_steps)
  retire-running st once =
      rw (retire-retired id info s e) (count-remove_first st id s.running_steps once)

  retire-known :
      (st : Text) → contains st s.group_infos ≡ true → contains st (retire id s).group_infos ≡ true
  retire-known st known =
      rw (retire-retired id info s e)
        (ground (arith, contains-set st id (forget_groups info) s.group_infos))

  retire-queue : (retire id s).queued_steps ≡ s.queued_steps
  retire-queue = rw (retire-retired id info s e)

  retire-once :
      ((st : Text) → count st (keys s.group_infos) ≤ 1)
      → (st : Text) → count st (keys (retire id s).group_infos) ≤ 1
  retire-once once st =
      rw (retire-retired id info s e) (once-set st id (forget_groups info) s.group_infos once)

pub retire_all-Retires :
    (done : List Text) (s : DragonBackend)
    → ((st : Text) → count st done ≤ count st s.running_steps)
    → ((st : Text) → count st s.running_steps ≤ 1)
    → ((st : Text) → 1 ≤ count st done → contains st s.group_infos ≡ true)
    → ((st : Text) → count st (keys s.group_infos) ≤ 1)
    → Retires done s (retire_all done s)
unfolding retire_all count
retire_all-Retires [] s sub distinct known once = record {
  forgotten = λ st info h e. absurd (omega arith);
  kept = λ st h. refl;
  leaves = λ st. omega arith;
  same_queue = refl;
  once = once;
}
retire_all-Retires (id ∷ done) s sub distinct known once =
    let (info, e) = contains-get? id s.group_infos (known id (ground (arith, text_eq_refl id))) in
    let runs = λ (st : Text). retire-running id info s e st (distinct id) in
    let finds = retire-infos id info s e in
    let r =
      retire_all-Retires done (retire id s)
        (λ st. ground (arith, sub st, distinct st, runs st, text_eq_iff id st))
        (λ st. ground (arith, distinct st, runs st))
        (λ st h. retire-known id info s e st (known st (omega arith)))
        (retire-once id info s e once) in
    record {
      forgotten = λ st i h found.
          ground
            (arith, sub st, distinct st, text_eq_iff id st, finds st, r.kept st, r.forgotten st i);
      kept = λ st h. ground (arith, r.kept st, finds st);
      leaves = λ st. ground (arith, r.leaves st, runs st, sub st, distinct st, text_eq_iff id st);
      same_queue = r.same_queue ∙ retire-queue id info s e;
      once = r.once;
    }
