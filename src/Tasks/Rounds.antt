-- ===== src/Tasks/Rounds.antt =====
-- launcher/taskManager.py: a round of the monitoring loop when the processes have returned.
use mathlib.Core.List.{append_assoc, append-nil}
use smart_sim.Common.{
  ℕ, zero, suc, ◌≤◌, ◌≡◌, refl, ◌∙◌, ap, Bool, false, ◌∷◌, [], ◌++◌, List, Text, text_eq,
  text_eq_refl, arith, All, Option, some, none, length, get_elem?,
}
use smart_sim.Common.Int.{ℤ}
use smart_sim.Common.Dict.{Dict, set}
use smart_sim.Common.Entries.{All-map, All-append, All-zip}
use smart_sim.Tasks.{
  Task, Processes, History, TaskManager, check_status, get_io, add_task_history, get_item, remove,
  drop_task, remove_task, visit, visit_from, stop_idle, run_round,
}

-- The elements at odd positions, and those at even ones.
unfoldable pub every_other {ℓ} : {A : Type ℓ} → List A → List A
every_other [] = []
every_other (x ∷ []) = []
every_other (x ∷ (y ∷ xs)) = y ∷ every_other xs

unfoldable pub taken {ℓ} : {A : Type ℓ} → List A → List A
taken [] = []
taken (x ∷ []) = x ∷ []
taken (x ∷ (y ∷ xs)) = x ∷ taken xs

abbrev pub Apart : Task → Task → Type 0
Apart t u = text_eq t.pid u.pid ≡ false

-- Each task has a pid of its own.
abbrev pub AreDistinct : List Task → Type 0
AreDistinct [] = Unit
AreDistinct (t ∷ ts) = All (Apart t) ts × AreDistinct ts

pub get_item-append :
    (xs ys : List Task) (y : Task)
    → All (λ x. Apart x y) xs
    → get_item y.pid (xs ++ y ∷ ys) ≡ some y
unfolding get_item
get_item-append [] ys y h = rw text_eq_refl
get_item-append (x ∷ xs) ys y h = rw (h.0, get_item-append xs ys y h.1)

pub remove-append :
    (xs ys : List Task) (y : Task)
    → All (λ x. Apart x y) xs
    → remove y.pid (xs ++ y ∷ ys) ≡ xs ++ ys
unfolding remove
remove-append [] ys y h = rw text_eq_refl
remove-append (x ∷ xs) ys y h = rw (h.0, remove-append xs ys y h.1)

get_elem?-append {ℓ} :
    {A : Type ℓ} (xs ys : List A) → get_elem? (xs ++ ys) (length xs) ≡ get_elem? ys 0
get_elem?-append [] ys = refl
get_elem?-append (x ∷ xs) ys = get_elem?-append xs ys

get_elem?_end {ℓ} : {A : Type ℓ} (xs : List A) → get_elem? xs (suc (length xs)) ≡ none
get_elem?_end [] = refl
get_elem?_end (x ∷ xs) = get_elem?_end xs

length_snoc {ℓ} : {A : Type ℓ} (xs : List A) (x : A) → length (xs ++ x ∷ []) ≡ suc (length xs)
length_snoc [] x = refl
length_snoc (y ∷ xs) x = ap suc (length_snoc xs x)

module _ (code : Text → ℤ) (io : Text → Option Text × Option Text) where
  abbrev pub result_of : Text → History
  result_of pid = let (output, error) = io pid in (some (code pid), output, error)

  -- The process of the task has returned, and psutil tells so.
  abbrev pub Returned : Processes → Task → Type 0
  Returned psutil t =
      (check_status psutil t ≡ some (code t.pid))
      × (get_io psutil t ≡ io t.pid)
      × (psutil.is_running t ≡ false)

  unfoldable pub record_all : List Task → Dict History → Dict History
  record_all [] h = h
  record_all (t ∷ ts) h = record_all ts (set t.pid (result_of t.pid) h)

  visit-Returned :
      (psutil : Processes) (a : Bool) (h : Dict History) (xs ys : List Task) (y : Task)
      → All (λ x. Apart x y) xs
      → Returned psutil y
      → visit psutil y (record { actively_monitoring = a; task_history = h; tasks = xs ++ y ∷ ys })
        ≡ record {
          actively_monitoring = a;
          task_history = set y.pid (result_of y.pid) h;
          tasks = xs ++ ys;
        }
  unfolding visit remove_task drop_task add_task_history
  visit-Returned psutil a h xs ys y apart (status, output, over) =
      let m : TaskManager = record {
        actively_monitoring = a;
        task_history = h;
        tasks = xs ++ y ∷ ys;
      } in
      rw (visit, status)
        (ap (λ r. remove_task psutil y.pid (add_task_history y.pid (some (code y.pid)) r m)) output
          ∙ rw (
            remove_task,
            get_item-append xs ys y apart,
            over,
            drop_task,
            remove-append xs ys y apart,
          ))

  visit_from_end :
      (psutil : Processes) (fuel position : ℕ) (m : TaskManager)
      → get_elem? m.tasks position ≡ none
      → visit_from psutil fuel position m ≡ m
  unfolding visit_from
  visit_from_end psutil zero position m e = refl
  visit_from_end psutil (suc fuel) position m e = rw (visit_from, e)

  visit_from-every_other :
      (psutil : Processes) (a : Bool) (h : Dict History) (fuel : ℕ) (xs ys : List Task)
      → length ys ≤ fuel
      → All (λ y. All (λ x. Apart x y) xs) ys
      → AreDistinct ys
      → All (Returned psutil) ys
      → visit_from psutil fuel
          (length xs)
          (record { actively_monitoring = a; task_history = h; tasks = xs ++ ys })
        ≡ record {
          actively_monitoring = a;
          task_history = record_all (taken ys) h;
          tasks = xs ++ every_other ys;
        }
  unfolding visit_from every_other taken record_all
  visit_from-every_other psutil a h fuel xs [] le apart distinct done =
      visit_from_end psutil fuel (length xs)
        (record { actively_monitoring = a; task_history = h; tasks = xs ++ [] })
        (get_elem?-append xs [])
  visit_from-every_other psutil a h zero xs (y ∷ ys) le apart distinct done = absurd (omega arith)
  visit_from-every_other psutil a h (suc fuel) xs (y ∷ []) le apart distinct done = rw (
    visit_from,
    get_elem?-append xs (y ∷ []),
    visit-Returned psutil a h xs [] y apart.0 done.0,
    visit_from_end psutil fuel (suc (length xs))
        (record {
          actively_monitoring = a;
          task_history = set y.pid (result_of y.pid) h;
          tasks = xs ++ [];
        })
        (rw append-nil (get_elem?_end xs)),
  )
  visit_from-every_other psutil a h (suc fuel) xs (y ∷ (z ∷ ys)) le apart distinct done =
      let step =
        visit_from-every_other psutil a (set y.pid (result_of y.pid) h) fuel (xs ++ z ∷ []) ys
          (omega arith)
          (All-map (λ w (h, k). All-append (λ x. Apart x w) xs (z ∷ []) h (k, tt)) ys
            (All-zip (λ w. All (λ x. Apart x w) xs) (Apart z) ys apart.1.1 distinct.1.0))
          distinct.1.1 done.1.1 in
      rw
        (
          visit_from,
          get_elem?-append xs (y ∷ (z ∷ ys)),
          visit-Returned psutil a h xs (z ∷ ys) y apart.0 done.0,
        )
        (rw
          (length_snoc xs z, append_assoc xs (z ∷ []) ys, append_assoc xs (z ∷ []) (every_other ys))
          at step)

  -- A round in which the processes of all tasks, each with its own pid, have returned records and
  -- removes the first task, the third and so on, with the code and the output of each; it leaves the
  -- others for later, and ends the monitoring if there are none.
  pub run_round-every_other :
      (psutil : Processes) (m : TaskManager)
      → AreDistinct m.tasks
      → All (Returned psutil) m.tasks
      → run_round psutil m
        ≡ stop_idle (record m {
          task_history = record_all (taken m.tasks) m.task_history;
          tasks = every_other m.tasks;
        })
  unfolding run_round
  run_round-every_other psutil m distinct done = ap stop_idle (
      visit_from-every_other psutil m.actively_monitoring m.task_history (length m.tasks) [] m.tasks
        (omega arith) (All-map (λ t h. tt) m.tasks done) distinct done)
