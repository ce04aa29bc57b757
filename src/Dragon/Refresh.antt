-- ===== src/Dragon/Refresh.antt =====
-- dragonBackend.py, `_refresh_statuses`: the running steps are polled, and the hosts of the
-- terminated ones released.
use smart_sim.Common.{
  ℕ, Bool, true, false, List, [], ◌∷◌, ◌++◌, map, Option, none, some, Text, text_eq, ◌||◌,
  if◌then◌else◌, any, all,
}
use smart_sim.Common.Dict.{Dict, get?, set, del}
use smart_sim.Common.Int.{ℤ, pos, negsuc, is_nonzero}
use smart_sim.Status.{running, completed, failed, is_terminal}
use smart_sim.Dragon.State.{ProcessGroupInfo, GroupState, World, DragonBackend, heartbeat}
use smart_sim.Dragon.Start.{Outcome, returned, raised}

abbrev is_some : Option ℕ → Bool
is_some none = false
is_some (some n) = true

-- The list comprehension over the return codes; `none` if reading one raises.
unfoldable pub read_codes : World → List (Option ℕ) → Option (List ℤ)
read_codes world [] = some []
read_codes world (puid ∷ puids) = elim (world.return_code puid) [
  | none ↦ none
  | some code ↦ elim (read_codes world puids) [ none ↦ none | some codes ↦ some (code ∷ codes) ]
]

unfoldable pub final_codes : World → Option (List (Option ℕ)) → List ℤ
unfolding read_codes
final_codes world none = pos 0 ∷ []
final_codes world (some puids) =
    if all is_some puids
    then (elim (read_codes world puids) [ none ↦ map (λ _. negsuc 0) puids | some codes ↦ codes ])
    else pos 0 ∷ []

abbrev pub is_error : GroupState → Bool
is_error GroupState.error = true
is_error GroupState.running = false
is_error GroupState.other = false

-- A group that is not running any more: its codes and its final status.
unfoldable pub finish : World → GroupState → ProcessGroupInfo → ProcessGroupInfo
unfolding final_codes
finish world state info =
    let codes = final_codes world info.puids in
    record info {
      return_codes = some codes;
      status = if any is_nonzero codes || is_error state then failed else completed;
    }

-- One round of the first loop. A step that is not final is not cancelled either, so that the
-- inner test for STATUS_CANCELLED always lets the new status through.
unfoldable pub poll : World → Text → ProcessGroupInfo → ProcessGroupInfo
unfolding finish is_terminal
poll world step_id info = elim info.process_group [
  | none ↦ record info { status = failed; return_codes = some (negsuc 0 ∷ []) }
  | some group ↦ if is_terminal info.status then info else (elim (world.group_state step_id group) [
    | GroupState.running ↦ record info { status = running }
    | GroupState.error ↦ finish world GroupState.error info
    | GroupState.other ↦ finish world GroupState.other info
  ])
]

-- What the first loop leaves: the infos and `terminated`, or the infos at a KeyError.
pub data Polled : Type 0 where
  polled : Dict ProcessGroupInfo → List Text → Polled
  key_error : Dict ProcessGroupInfo → Polled

-- A step whose status is final is put into `terminated`.
abbrev pub note_terminated : Text → ProcessGroupInfo → Polled → Polled
note_terminated step_id info (polled infos terminated) =
    polled infos (if is_terminal info.status then step_id ∷ terminated else terminated)
note_terminated step_id info (key_error infos) = key_error infos

unfoldable pub poll_all : World → List Text → Dict ProcessGroupInfo → Polled
poll_all world [] infos = polled infos []
poll_all world (step_id ∷ steps) infos = elim (get? step_id infos) [
  | none ↦ key_error infos
  | some info ↦
      note_terminated step_id (poll world step_id info)
        (poll_all world steps (set step_id (poll world step_id info) infos))
]

-- list.remove: the first occurrence.
unfoldable pub remove_first : Text → List Text → List Text
remove_first k [] = []
remove_first k (x ∷ xs) = if text_eq x k then xs else x ∷ remove_first k xs

unfoldable pub release_hosts : List Text → DragonBackend → DragonBackend
release_hosts [] s = s
release_hosts (host ∷ hosts) s = release_hosts hosts (record s {
  allocated_hosts = del host s.allocated_hosts;
  free_hosts = s.free_hosts ++ host ∷ [];
})

abbrev pub forget_groups : ProcessGroupInfo → ProcessGroupInfo
forget_groups info = record info { process_group = none; redir_workers = none }

-- One round of the second loop. The step is in `running_steps` and on record.
unfoldable pub retire : Text → DragonBackend → DragonBackend
unfolding remove_first release_hosts
retire step_id s =
    let s' = record s {
      running_steps = remove_first step_id s.running_steps;
      completed_steps = s.completed_steps ++ step_id ∷ [];
    } in
    elim (get? step_id s.group_infos) [
      | none ↦ s'
      | some info ↦
          let s'' = release_hosts info.hosts s' in
          record s'' { group_infos = set step_id (forget_groups info) s''.group_infos }
    ]

unfoldable pub retire_all : List Text → DragonBackend → DragonBackend
retire_all [] s = s
retire_all (step_id ∷ steps) s = retire_all steps (retire step_id s)

unfoldable pub refresh_statuses : ℕ → World → DragonBackend → Outcome
unfolding retire_all
refresh_statuses now world s = elim (poll_all world s.running_steps s.group_infos) [
  | key_error infos ↦ raised (record (heartbeat now s) { group_infos = infos })
  | polled infos terminated ↦
      returned (retire_all terminated (record (heartbeat now s) { group_infos = infos }))
]
