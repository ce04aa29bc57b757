-- ===== src/Control/Manager/Rounds.antt =====
-- The rounds of JobManager.run: the answers of the launcher, and the invariant.
use smart_sim.Common.{
  ℕ, ◌≡◌, refl, sym, subst, true, false, inl, inr, List, [], ◌∷◌, Option, none, some, Text,
  mem_text, ◌∙◌, if◌then◌else◌, All, Bool-cases, Option-cases, arith,
}
use smart_sim.Common.Dict.{Dict, get?, set, contains, keys, values, contains-get?}
use smart_sim.Common.Entries.{All-set, All-get?, All-map, All-values, All-zip, All-contains}
use smart_sim.Control.Job.{Job, ename}
use smart_sim.Control.Manager.{
  Manager, move_to_completed, write_item, get_item, set_status_of, names_of, Updates, apply_update,
  apply_updates, check_jobs, active, merge, move_over, stop_idle, is_over, is_none_active,
}
use smart_sim.Control.Manager.Invariant.{
  Inv, Held, IsActive, IsKept, set_status-IsActive, move_to_completed-Inv,
}
use smart_sim.Control.Manager.Steps.{
  get_item-IsActive, is_active, write_item-Inv, write_item-is_active,
}
use smart_sim.Launcher.StepInfo.{StepInfo}

-- The map from step names to entity names leads to active entities.
unfoldable pub IsMapped : Manager → Dict Text → Type 0
IsMapped m = All (λ e. is_active m e.1 ≡ true)

names_of-IsMapped :
    (m : Manager) (jobs : List Job) (d : Dict Text)
    → IsMapped m d
    → All (λ job. is_active m (ename job) ≡ true) jobs
    → IsMapped m (names_of jobs d)
unfolding IsMapped names_of
names_of-IsMapped m [] d h k = h
names_of-IsMapped m (job ∷ jobs) d h (p, k) =
    names_of-IsMapped m jobs (set job.name (ename job) d)
      (All-set (λ e. is_active m e.1 ≡ true) job.name (ename job) d h p) k

-- What holds of the entries of two dicts holds of those of their merge.
pub merge-All :
    (P : Text × Job → Type 0) (first second : Dict Job)
    → All P first
    → All P second
    → All P (merge first second)
unfolding merge
merge-All P first [] h k = h
merge-All P first ((i, job) ∷ second) h (p, k) =
    merge-All P (set i job first) second (All-set P i job first h p) k

pub active-is_active :
    (m : Manager) → Inv m → All (λ e. IsActive e × (is_active m e.0 ≡ true)) (active m)
unfolding Held active is_active
active-is_active m (apart, jobs, db_jobs, completed) =
    merge-All (λ e. IsActive e × (is_active m e.0 ≡ true)) m.jobs m.db_jobs
      (All-zip IsActive (λ e. is_active m e.0 ≡ true) m.jobs jobs
        (All-map (λ e h. ground (arith, h)) m.jobs (All-contains m.jobs)))
      (All-zip IsActive (λ e. is_active m e.0 ≡ true) m.db_jobs db_jobs
        (All-map (λ e h. ground (arith, h)) m.db_jobs (All-contains m.db_jobs)))

asked-IsMapped : (m : Manager) → Inv m → IsMapped m (names_of (values (active m)) [])
unfolding IsActive IsMapped
asked-IsMapped m inv = names_of-IsMapped m (values (active m)) [] tt (
    All-values (λ job. is_active m (ename job) ≡ true) (active m)
      (All-map (λ e h. subst (λ k. is_active m k ≡ true) (sym h.0.0) h.1) (active m)
        (active-is_active m inv)))

mem_text-keys :
    {V : Type 0} (k : Text) (d : Dict V) → mem_text k (keys d) ≡ true → contains k d ≡ true
unfolding mem_text keys contains
mem_text-keys k [] h = h
mem_text-keys k ((j, v) ∷ d) h = ground (arith, mem_text-keys k d)

-- An active name is looked up.
active_item :
    (k : Text) (m : Manager) → is_active m k ≡ true → (job : Job) × (get_item k m ≡ some job)
unfolding is_active get_item
active_item k m h = elim (Option-cases (get? k m.db_jobs)) [
  | inr (job, in_db) ↦ (job, rw (get_item, in_db))
  | inl not_db ↦ elim (Bool-cases (contains k m.jobs)) [
    | inl in_jobs ↦ let (job, e) = contains-get? k m.jobs in_jobs in (job, rw (get_item, not_db, e))
    | inr not_jobs ↦
        let (job, e) = contains-get? k m.db_jobs (ground (arith, not_jobs, h)) in
        absurd (ground (arith, e, not_db))
  ]
]

-- What a manager that an answer has updated still has.
Updated : Manager → Dict Text → Option Manager → Type 0
Updated m d none = ⊥
Updated m d (some n) = Inv n × ((k : Text) → is_active n k ≡ is_active m k)

apply_update-Updated :
    (d : Dict Text) (name : Text) (status : Option StepInfo) (m : Manager)
    → Inv m
    → IsMapped m d
    → contains name d ≡ true
    → Updated m d (apply_update d name status m)
unfolding apply_update Updated IsMapped
apply_update-Updated d name status m inv mapped h =
    let (key, e) = contains-get? name d h in
    let active = All-get? (λ u. is_active m u.1 ≡ true) name d key mapped e in
    let (job, f) = active_item key m active in
    let p = get_item-IsActive key job m inv f in
    rw (apply_update, e, f)
      (elim status
        as (λ s. Updated m d (elim s [
          | none ↦ some m
          | some info ↦ some (write_item key (set_status_of info job) m)
        ])) [
          | none ↦ (inv, λ k. refl)
          | some info ↦ (
            write_item-Inv key (set_status_of info job) m inv active
                (set_status-IsActive key info job p),
            λ k. write_item-is_active k key (set_status_of info job) m active,
          )
        ])

apply_updates-Updated :
    (d : Dict Text) (updates : Updates) (m : Manager)
    → Inv m
    → IsMapped m d
    → All (λ u. mem_text u.0 (keys d) ≡ true) updates
    → Updated m d (apply_updates d updates m)
unfolding apply_updates Updated IsMapped
apply_updates-Updated d [] m inv mapped h = (inv, λ k. refl)
apply_updates-Updated d ((name, status) ∷ updates) m inv mapped (p, h) =
    after_update (apply_update d name status m)
      (apply_update-Updated d name status m inv mapped (mem_text-keys name d p))
      (λ n inv_n mapped_n. apply_updates-Updated d updates n inv_n mapped_n h)
  where
    after_update :
        (o : Option Manager)
        → Updated m d o
        → ((n : Manager) → Inv n → IsMapped n d → Updated n d (apply_updates d updates n))
        → Updated m d (elim o [ none ↦ none | some n ↦ apply_updates d updates n ])
    after_update none u rest = u
    after_update (some n) (inv_n, same) rest =
        widen (apply_updates d updates n) (rest n inv_n (All-map (λ u p. same u.1 ∙ p) d mapped))
      where
        widen : (o : Option Manager) → Updated n d o → Updated m d o
        widen none u = u
        widen (some r) (inv_r, same_r) = (inv_r, λ k. same_r k ∙ same k)

-- A launcher tells of the steps that it was asked for.
unfoldable pub IsLauncher : (List Text → Updates) → Type 0
IsLauncher answer = (names : List Text) → All (λ u. mem_text u.0 names ≡ true) (answer names)

pub check_jobs-Inv :
    (answer : List Text → Updates) (m : Manager)
    → IsLauncher answer
    → Inv m
    → (n : Manager) × (check_jobs answer m ≡ some n) × Inv n
unfolding check_jobs IsLauncher Updated
check_jobs-Inv answer m sound inv =
    let d = names_of (values (active m)) [] in
    elim m.launcher
      as (λ l.
        (n : Manager) × (elim l [
          | none ↦ some m
          | some launcher ↦ apply_updates d (answer (keys d)) m
        ]
          ≡ some n)
        × Inv n) [
          | none ↦ (m, refl, inv)
          | some launcher ↦ found (apply_updates d (answer (keys d)) m) (
              apply_updates-Updated d (answer (keys d)) m inv (asked-IsMapped m inv)
                (sound (keys d)))
        ]
  where
    found :
        (o : Option Manager)
        → Updated m (names_of (values (active m)) []) o
        → (n : Manager) × (o ≡ some n) × Inv n
    found none u = absurd u
    found (some n) u = (n, refl, u.0)

pub move_over-Inv :
    (now : ℕ) (items : Dict Job) (m : Manager)
    → Inv m
    → All (λ e. IsKept e.1) items
    → Inv (move_over now items m)
unfolding move_over
move_over-Inv now [] m inv h = inv
move_over-Inv now ((k, job) ∷ items) m inv (kept, h) =
    move_over-Inv now items (if is_over job then move_to_completed now job m else m)
      (elim (is_over job) as (λ b. Inv (if b then move_to_completed now job m else m)) [
        | true ↦ move_to_completed-Inv now job m inv kept
        | false ↦ inv
      ])
      h

pub stop_idle-Inv : (m : Manager) → Inv m → Inv (stop_idle m)
unfolding stop_idle
stop_idle-Inv m inv =
    elim (active m)
      as (λ d. Inv (if is_none_active d then record m { actively_monitoring = false } else m)) [
        | [] ↦ inv
        | item ∷ items ↦ inv
      ]
