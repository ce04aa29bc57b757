-- ===== src/Launcher/StepMapping.antt =====
-- launcher/stepMapping.py: the ids of the launched steps.
pub mod Ids
use smart_sim.Common.{
  ℕ, Bool, true, false, List, [], ◌∷◌, Option, none, some, Text, text_eq, if◌then◌else◌, ◌&&◌, not,
}
use smart_sim.Common.Dict.{Dict, get?, set}

pub record StepMap : Type 0 where
  pub step_id : Option Text
  pub task_id : Option Text
  pub managed : Option Bool

abbrev pub StepMapping : Type 0
StepMapping = Dict StepMap

-- bool(managed)
abbrev pub truthy : Option Bool → Bool
truthy none = false
truthy (some b) = b

-- `str(task_id) if task_id else None`: an empty id counts as none.
abbrev pub str_or_none : Option Text → Option Text
str_or_none none = none
str_or_none (some []) = none
str_or_none (some (c ∷ cs)) = some (c ∷ cs)

-- `__setitem__`
abbrev pub set_item : Text → StepMap → StepMapping → StepMapping
set_item = set

unfoldable pub add : Text → Option Text → Option Text → Bool → StepMapping → StepMapping
add step_name step_id task_id managed mapping =
    set step_name
      (record { step_id = step_id; task_id = str_or_none task_id; managed = some managed }) mapping

-- Comparison of an optional id with an id.
abbrev id_is : Option Text → Text → Bool
id_is none id = false
id_is (some a) id = text_eq a id

-- The task id of the first step with this step id.
unfoldable pub get_task_id : Text → StepMapping → Option Text
get_task_id step_id [] = none
get_task_id step_id ((name, m) ∷ mapping) =
    if id_is m.step_id step_id then m.task_id else get_task_id step_id mapping

-- What `get_ids` puts down for one step: nothing, or the id that is asked for.
unfoldable pub pick : Bool → StepMap → Option (Option Text)
pick managed m =
    if managed && truthy m.managed
    then some m.step_id
    else if not managed && not (truthy m.managed)
    then some (str_or_none m.task_id)
    else none

abbrev pub put_down :
    Text → Option (Option Text) → List Text × List (Option Text) → List Text × List (Option Text)
put_down name none r = r
put_down name (some id) (names, ids) = (name ∷ names, id ∷ ids)

unfoldable pub get_ids : List Text → Bool → StepMapping → List Text × List (Option Text)
get_ids [] managed mapping = ([], [])
get_ids (name ∷ step_names) managed mapping =
    let rest = get_ids step_names managed mapping in
    elim (get? name mapping) [ none ↦ rest | some m ↦ put_down name (pick managed m) rest ]
