-- ===== src/Tasks/Invariant.antt =====
-- launcher/taskManager.py: which tasks have an entry in the history.
use mathlib.Core.Option.{some-injective}
use smart_sim.Common.{
  ℕ, zero, suc, ◌≡◌, refl, ◌∙◌, subst, inl, inr, true, ◌∷◌, [], List, Text, text_eq, text_eq_iff,
  Bool-cases, Option-cases, arith, All, Option, some, length, get_elem?, ◌==◌,
}
use smart_sim.Common.Int.{ℤ}
use smart_sim.Common.Dict.{contains, contains-set}
use smart_sim.Common.Entries.{All-map}
use smart_sim.Tasks.{
  Task, Processes, TaskManager, check_status, check_killed, get_io, add_task_history, get_item,
  remove, drop_task, remove_task, visit, visit_from, stop_idle, run_round,
}

-- Each task has an entry in the history.
abbrev pub AreKnown : TaskManager → Type 0
AreKnown m = All (λ t. contains t.pid m.task_history ≡ true) m.tasks

-- The history has entries for the same pids.
abbrev pub IsSame : TaskManager → TaskManager → Type 0
IsSame m n = (j : Text) → contains j n.task_history ≡ contains j m.task_history

remove-All {κ} :
    (P : Task → Type κ) (task_id : Text) (ts : List Task) → All P ts → All P (remove task_id ts)
unfolding remove
remove-All P task_id [] h = tt
remove-All P task_id (t ∷ ts) h = elim (Bool-cases (text_eq t.pid task_id)) [
  | inl same ↦ rw same h.1
  | inr other ↦ rw other (h.0, remove-All P task_id ts h.1)
]

get_item-All {κ} :
    (P : Task → Type κ) (task_id : Text) (ts : List Task) (t : Task)
    → All P ts
    → get_item task_id ts ≡ some t
    → P t × (t.pid ≡ task_id)
unfolding get_item
get_item-All P task_id [] t h e = cc
get_item-All P task_id (u ∷ ts) t h e = elim (Bool-cases (text_eq u.pid task_id)) [
  | inl same ↦
      subst (λ v. P v × (v.pid ≡ task_id)) (some-injective u t (rw (same, get_item) at e))
        (h.0, (text_eq_iff u.pid task_id).0 same)
  | inr other ↦ get_item-All P task_id ts t h.1 (rw (other, get_item) at e)
]

get_elem?-All {ℓ κ} :
    {A : Type ℓ} (P : A → Type κ) (xs : List A) (i : ℕ) (x : A)
    → All P xs
    → get_elem? xs i ≡ some x
    → P x
get_elem?-All P [] i x h e = cc
get_elem?-All P (y ∷ xs) zero x h e = subst P (some-injective y x e) h.0
get_elem?-All P (y ∷ xs) (suc i) x h e = get_elem?-All P xs i x h.1 e

abbrev pub Keeps : TaskManager → TaskManager → Type 0
Keeps m n = AreKnown n × IsSame m n

Keeps-trans : (a b c : TaskManager) → Keeps a b → Keeps b c → Keeps a c
Keeps-trans a b c (_, p) (known, q) = (known, λ j. q j ∙ p j)

add_task_history-Keeps :
    (task_id : Text) (code : Option ℤ) (io : Option Text × Option Text) (m : TaskManager)
    → AreKnown m
    → contains task_id m.task_history ≡ true
    → Keeps m (add_task_history task_id code io m)
unfolding add_task_history
add_task_history-Keeps task_id code io m known h = (
  All-map (λ t k. ground (arith, k, contains-set t.pid task_id (code, io.0, io.1) m.task_history))
      m.tasks known,
  λ j.
      ground
        (arith, h, contains-set j task_id (code, io.0, io.1) m.task_history, text_eq_iff task_id j),
)

drop_task-Keeps : (task_id : Text) (m : TaskManager) → AreKnown m → Keeps m (drop_task task_id m)
unfolding drop_task
drop_task-Keeps task_id m known = (remove-All _ task_id m.tasks known, λ j. refl)

pub remove_task-Keeps :
    (psutil : Processes) (task_id : Text) (m : TaskManager)
    → AreKnown m
    → Keeps m (remove_task psutil task_id m)
unfolding remove_task
remove_task-Keeps psutil task_id m known = elim (Option-cases (get_item task_id m.tasks)) [
  | inl gone ↦ rw (remove_task, gone) (known, λ j. refl)
  | inr (t, e) ↦ elim (Bool-cases (psutil.is_running t)) [
    | inl running ↦ elim (Bool-cases (psutil.can_kill t)) [
      | inl can ↦
          let io = get_io psutil t in
          let killed = add_task_history task_id (check_killed psutil t) io m in
          let (has, same) = get_item-All _ task_id m.tasks t known e in
          let first =
            add_task_history-Keeps task_id (check_killed psutil t) io m known (rw same at has) in
          rw (remove_task, e, running, can)
            (Keeps-trans m killed (drop_task task_id killed) first
              (drop_task-Keeps task_id killed first.0))
      | inr not ↦ rw (remove_task, e, running, not) (known, λ j. refl)
    ]
    | inr over ↦ rw (remove_task, e, over) (drop_task-Keeps task_id m known)
  ]
]

visit-Keeps :
    (psutil : Processes) (t : Task) (m : TaskManager)
    → AreKnown m
    → contains t.pid m.task_history ≡ true
    → Keeps m (visit psutil t m)
unfolding visit
visit-Keeps psutil t m known h = elim (Option-cases (check_status psutil t)) [
  | inl runs ↦ rw (visit, runs) (known, λ j. refl)
  | inr (code, e) ↦
      let recorded = add_task_history t.pid (some code) (get_io psutil t) m in
      let first = add_task_history-Keeps t.pid (some code) (get_io psutil t) m known h in
      rw (visit, e)
        (Keeps-trans m recorded (remove_task psutil t.pid recorded) first
          (remove_task-Keeps psutil t.pid recorded first.0))
]

visit_from-Keeps :
    (psutil : Processes) (fuel position : ℕ) (m : TaskManager)
    → AreKnown m
    → Keeps m (visit_from psutil fuel position m)
unfolding visit_from
visit_from-Keeps psutil zero position m known = (known, λ j. refl)
visit_from-Keeps psutil (suc fuel) position m known =
    elim (Option-cases (get_elem? m.tasks position)) [
      | inl past ↦ rw (visit_from, past) (known, λ j. refl)
      | inr (t, e) ↦
          let first = visit-Keeps psutil t m known (get_elem?-All _ m.tasks position t known e) in
          rw (visit_from, e)
            (Keeps-trans m (visit psutil t m)
              (visit_from psutil fuel (suc position) (visit psutil t m)) first
              (visit_from-Keeps psutil fuel (suc position) (visit psutil t m) first.0))
    ]

stop_idle-Keeps : (m : TaskManager) → AreKnown m → Keeps m (stop_idle m)
unfolding stop_idle
stop_idle-Keeps m known = elim (Bool-cases (length m.tasks == 0)) [
  | inl empty ↦ rw (stop_idle, empty) (known, λ j. refl)
  | inr some_left ↦ rw (stop_idle, some_left) (known, λ j. refl)
]

pub run_round-Keeps :
    (psutil : Processes) (m : TaskManager) → AreKnown m → Keeps m (run_round psutil m)
unfolding run_round
run_round-Keeps psutil m known =
    let over = visit_from psutil (length m.tasks) 0 m in
    let first = visit_from-Keeps psutil (length m.tasks) 0 m known in
    Keeps-trans m over (stop_idle over) first (stop_idle-Keeps over first.0)
