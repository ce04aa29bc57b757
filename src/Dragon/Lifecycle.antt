-- ===== src/Dragon/Lifecycle.antt =====
-- The life of a step: queued, running, or settled with a final status and no process group left.
pub mod Stops
pub mod Kills
pub mod Finals
pub mod Starts
pub mod Polls
pub mod Refreshes
pub mod Settles
pub mod Histories
pub mod Shutdown
use smart_sim.Common.{
  ℕ, ◌+◌, ◌≤◌, Bool, true, false, List, [], ◌∷◌, Option, none, some, Text, text_eq, text_eq_iff,
  count, if◌then◌else◌, ◌≡◌, refl, arith, ◌⊎◌, inl, inr, all, ◌&&◌, Bool-cases,
}
use smart_sim.Common.Dict.{
  Dict, get?, set, contains, keys, values, count-keys-set, count-contains, contains-count,
  get?-contains,
}
use smart_sim.Status.{SmartSimStatus, never_started, is_terminal}
use smart_sim.Dragon.State.{DragonRunRequest, ProcessGroupInfo, DragonBackend}
use smart_sim.Dragon.Shutdown.{is_settled}

pub record IsIdle (info : ProcessGroupInfo) : Type 0 where
  pub unstarted : info.status ≡ never_started
  pub no_group : info.process_group ≡ none
  pub no_workers : info.redir_workers ≡ none

-- A step is settled, running or queued.
abbrev pub Placed : Text → ProcessGroupInfo → Dict DragonRunRequest → List Text → Type 0
Placed st info queued_steps running_steps =
    (is_settled info ≡ true) ⊎ ((count st running_steps ≡ 1) ⊎ (1 ≤ count st (keys queued_steps)))

pub record Stages (queued_steps : Dict DragonRunRequest) (running_steps : List Text)
    (group_infos : Dict ProcessGroupInfo) : Type 0 where
  -- every step has one record
  pub once : (st : Text) → count st (keys group_infos) ≤ 1
  -- a queued step has not been started
  pub idle :
      (st : Text) (info : ProcessGroupInfo)
      → 1 ≤ count st (keys queued_steps)
      → get? st group_infos ≡ some info
      → IsIdle info
  pub placed :
      (st : Text) (info : ProcessGroupInfo)
      → get? st group_infos ≡ some info
      → Placed st info queued_steps running_steps

abbrev pub Life : DragonBackend → Type 0
Life s = Stages s.queued_steps s.running_steps s.group_infos

-- The step is on record with a final status.
abbrev pub IsFinal : Text → DragonBackend → Type 0
IsFinal st s =
    (info : ProcessGroupInfo) × (get? st s.group_infos ≡ some info)
    × (is_terminal info.status ≡ true)

-- With one record for each step, what holds of each record that is found holds of all.
pub all-values :
    (p : ProcessGroupInfo → Bool) (d : Dict ProcessGroupInfo)
    → ((st : Text) → count st (keys d) ≤ 1)
    → ((st : Text) (info : ProcessGroupInfo) → get? st d ≡ some info → p info ≡ true)
    → all p (values d) ≡ true
unfolding values keys count get?
all-values p [] once h = refl
all-values p ((k, info) ∷ d) once h = ground (
  arith,
  h k info,
  text_eq_iff k k,
  all-values p d (λ st. omega (arith, once st))
      (λ st other e.
        h st other (ground (arith, once st, contains-count st d, get?-contains st d other))),
)
