-- ===== src/Launcher/Updates/Names.antt =====
-- Which steps `get_step_update` of launcher.py tells of.
use smart_sim.Common.{
  ◌≡◌, refl, sym, ap, ◌∙◌, Bool, true, false, List, [], ◌∷◌, ◌++◌, map, Option, none, some, Text,
  text_eq_refl, mem_text, count, count-append, length, All, if◌then◌else◌, arith, inl, inr,
  Option-cases,
}
use smart_sim.Common.Dict.{contains, get?, keys}
use smart_sim.Common.Entries.{All-map, All-append}
use smart_sim.Launcher.StepInfo.{StepInfo, Psutil}
use smart_sim.Launcher.StepMapping.{StepMapping, get_ids, pick, put_down}
use smart_sim.Launcher.StepMapping.Ids.{get_ids_divides}
use smart_sim.Launcher.Updates.{
  id_text, zip, TaskUpdate, get_unmanaged_step_update, updates_of, get_step_update,
}

-- A query that answers with one status for each id.
unfoldable pub IsComplete : (List Text → List StepInfo) → Type 0
IsComplete query = (ids : List Text) → length (query ids) ≡ length ids

tasks-IsComplete :
    (psutil : Psutil) (get_task_update : Text → TaskUpdate)
    → IsComplete (get_unmanaged_step_update psutil get_task_update)
unfolding IsComplete get_unmanaged_step_update
tasks-IsComplete psutil get_task_update [] = refl
tasks-IsComplete psutil get_task_update (id ∷ ids) =
    omega (arith, tasks-IsComplete psutil get_task_update ids)

abbrev names_of : List (Text × Option StepInfo) → List Text
names_of = map (λ u. u.0)

keys-zip :
    (names : List Text) (infos : List StepInfo)
    → length infos ≡ length names
    → keys (zip names infos) ≡ names
unfolding keys zip
keys-zip [] infos h = refl
keys-zip (name ∷ names) [] h = absurd (omega arith)
keys-zip (name ∷ names) (info ∷ infos) h = ap (◌∷◌ name) (keys-zip names infos (omega arith))

length-put_down :
    (name : Text) (o : Option (Option Text)) (r : List Text × List (Option Text))
    → length r.0 ≡ length r.1
    → length (put_down name o r).0 ≡ length (put_down name o r).1
length-put_down name none r h = h
length-put_down name (some id) (names, ids) h = omega arith

length-ids :
    (names : List Text) (managed : Bool) (mapping : StepMapping)
    → length (get_ids names managed mapping).0 ≡ length (get_ids names managed mapping).1
unfolding get_ids
length-ids [] managed mapping = refl
length-ids (name ∷ names) managed mapping = elim (Option-cases (get? name mapping)) [
  | inl absent ↦ rw (get_ids, absent) (length-ids names managed mapping)
  | inr (m, found) ↦
      rw (get_ids, found)
        (length-put_down name (pick managed m) (get_ids names managed mapping)
          (length-ids names managed mapping))
]

length-map_ids : (ids : List (Option Text)) → length (map id_text ids) ≡ length ids
length-map_ids [] = refl
length-map_ids (id ∷ ids) = omega (arith, length-map_ids ids)

keys-updates_of :
    (query : List Text → List StepInfo) (names : List Text) (ids : List (Option Text))
    → IsComplete query
    → length names ≡ length ids
    → keys (updates_of query (names, ids)) ≡ names
unfolding updates_of keys IsComplete
keys-updates_of query [] [] c h = refl
keys-updates_of query (name ∷ names) [] c h = absurd (omega arith)
keys-updates_of query names (id ∷ ids) c h =
    keys-zip names (query (map id_text (id ∷ ids)))
      (c (map id_text (id ∷ ids)) ∙ length-map_ids (id ∷ ids) ∙ sym h)

keys-append : (a b : List (Text × Option StepInfo)) → keys (a ++ b) ≡ keys a ++ keys b
unfolding keys
keys-append [] b = refl
keys-append ((k, v) ∷ a) b = ap (◌∷◌ k) (keys-append a b)

-- If the workload manager answers with one status for each id, each occurrence of a step on the map
-- among the asked names has one update, and other names have none.
pub get_step_update_counts :
    (managed_update : List Text → List StepInfo) (psutil : Psutil)
    (get_task_update : Text → TaskUpdate) (mapping : StepMapping) (names : List Text) (n : Text)
    → IsComplete managed_update
    → count n (keys (get_step_update managed_update psutil get_task_update mapping names))
      ≡ (if contains n mapping then count n names else 0)
unfolding get_step_update
get_step_update_counts managed_update psutil get_task_update mapping names n c =
    let yes = get_ids names true mapping in
    let no = get_ids names false mapping in
    let tasks = get_unmanaged_step_update psutil get_task_update in
    let first = keys-updates_of managed_update yes.0 yes.1 c (length-ids names true mapping) in
    let second =
      keys-updates_of tasks no.0 no.1 (tasks-IsComplete psutil get_task_update)
        (length-ids names false mapping) in
    rw (get_step_update, keys-append, first, second, count-append) (get_ids_divides names mapping n)

module _ (asked : List Text) where
  zip-mem :
      (names : List Text) (infos : List StepInfo)
      → All (λ n. mem_text n asked ≡ true) names
      → All (λ u. mem_text u.0 asked ≡ true) (zip names infos)
  unfolding zip
  zip-mem [] infos h = tt
  zip-mem (name ∷ names) [] h = tt
  zip-mem (name ∷ names) (info ∷ infos) h = (h.0, zip-mem names infos h.1)

  updates_of-mem :
      (query : List Text → List StepInfo) (names : List Text) (ids : List (Option Text))
      → All (λ n. mem_text n asked ≡ true) names
      → All (λ u. mem_text u.0 asked ≡ true) (updates_of query (names, ids))
  unfolding updates_of
  updates_of-mem query names [] h = tt
  updates_of-mem query names (id ∷ ids) h = zip-mem names (query (map id_text (id ∷ ids))) h

  put_down-mem :
      (name : Text) (o : Option (Option Text)) (r : List Text × List (Option Text))
      → mem_text name asked ≡ true
      → All (λ n. mem_text n asked ≡ true) r.0
      → All (λ n. mem_text n asked ≡ true) (put_down name o r).0
  put_down-mem name none r h k = k
  put_down-mem name (some id) (names, ids) h k = (h, k)

  get_ids-mem :
      (names : List Text) (managed : Bool) (mapping : StepMapping)
      → All (λ n. mem_text n asked ≡ true) names
      → All (λ n. mem_text n asked ≡ true) (get_ids names managed mapping).0
  unfolding get_ids
  get_ids-mem [] managed mapping h = tt
  get_ids-mem (name ∷ names) managed mapping (h, k) = elim (Option-cases (get? name mapping)) [
    | inl absent ↦ rw (get_ids, absent) (get_ids-mem names managed mapping k)
    | inr (m, found) ↦
        rw (get_ids, found)
          (put_down-mem name (pick managed m) (get_ids names managed mapping) h
            (get_ids-mem names managed mapping k))
  ]

asked-mem : (names : List Text) → All (λ n. mem_text n names ≡ true) names
unfolding mem_text
asked-mem [] = tt
asked-mem (name ∷ names) =
    (ground (arith, text_eq_refl name), All-map (λ n h. ground (arith, h)) names (asked-mem names))

-- The updates name only steps that were asked for, whatever the queries answer.
pub get_step_update-mem :
    (managed_update : List Text → List StepInfo) (psutil : Psutil)
    (get_task_update : Text → TaskUpdate) (mapping : StepMapping) (names : List Text)
    → All
        (λ u. mem_text u.0 names ≡ true)
        (get_step_update managed_update psutil get_task_update mapping names)
unfolding get_step_update
get_step_update-mem managed_update psutil get_task_update mapping names =
    let of_kind = λ (managed : Bool). get_ids-mem names names managed mapping (asked-mem names) in
    All-append (λ u. mem_text u.0 names ≡ true)
      (updates_of managed_update (get_ids names true mapping))
      (updates_of (get_unmanaged_step_update psutil get_task_update) (get_ids names false mapping))
      (updates_of-mem names managed_update (get_ids names true mapping).0
        (get_ids names true mapping).1 (of_kind true))
      (updates_of-mem names (get_unmanaged_step_update psutil get_task_update)
        (get_ids names false mapping).0 (get_ids names false mapping).1 (of_kind false))
