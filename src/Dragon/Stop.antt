-- ===== src/Dragon/Stop.antt =====
-- dragonBackend.py, `_stop_steps`: every pending stop request is handled, oldest first.
use smart_sim.Common.{ℕ, List, [], ◌∷◌, ◌++◌, Option, none, some, Text, if◌then◌else◌}
use smart_sim.Common.Dict.{get?, set, del, contains}
use smart_sim.Common.Int.{negsuc}
use smart_sim.Status.{cancelled}
use smart_sim.Dragon.State.{
  ProcessGroup, ProcessTemplate, ProcessGroupInfo, GroupState, World, GroupCall, kill, stop,
  DragonBackend, heartbeat,
}

-- The calls that end a running group: `kill`, and `stop` where `kill` raises DragonProcessGroupError,
-- the only exception that is taken into account here.
unfoldable pub end_group : World → Text → Option (ProcessGroup ProcessTemplate) → List GroupCall
end_group world step_id none = []
end_group world step_id (some group) = elim (world.group_state step_id group) [
  | GroupState.running ↦
      if world.kill_raises step_id then kill step_id ∷ stop step_id ∷ [] else kill step_id ∷ []
  | GroupState.error ↦ []
  | GroupState.other ↦ []
]

-- A cancelled step reports the exit code -9.
unfoldable pub cancel : ProcessGroupInfo → ProcessGroupInfo
cancel info = record info { status = cancelled; return_codes = some (negsuc 8 ∷ []) }

-- The step leaves the queue, or its group is ended; the redirect workers are only joined.
unfoldable pub withdraw : World → Text → ProcessGroupInfo → DragonBackend → DragonBackend
unfolding end_group
withdraw world step_id info s =
    if contains step_id s.queued_steps
    then record s { queued_steps = del step_id s.queued_steps }
    else record s { calls = s.calls ++ end_group world step_id info.process_group }

unfoldable pub stop_step : World → Text → DragonBackend → DragonBackend
unfolding withdraw cancel
stop_step world step_id s = elim (get? step_id s.group_infos) [
  | none ↦ s
  | some info ↦
      let s' = withdraw world step_id info s in
      record s' { group_infos = set step_id (cancel info) s'.group_infos }
]

unfoldable pub stop_all : World → List Text → DragonBackend → DragonBackend
stop_all world [] s = s
stop_all world (step_id ∷ requests) s = stop_all world requests (stop_step world step_id s)

unfoldable pub stop_steps : ℕ → World → DragonBackend → DragonBackend
stop_steps now world s =
    stop_all world s.stop_requests (record (heartbeat now s) { stop_requests = [] })
