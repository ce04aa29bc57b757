-- ===== src/Dragon/Lifecycle/Finals.antt =====
-- `_stop_steps`: a final status stays final.
use smart_sim.Common.{ℕ, List, [], ◌∷◌, Text, text_eq, refl, arith, inl, inr, Bool-cases}
use smart_sim.Status.{is_terminal}
use smart_sim.Dragon.State.{DragonBackend, World, heartbeat}
use smart_sim.Dragon.Stop.{cancel, stop_step, stop_all, stop_steps}
use smart_sim.Dragon.Lifecycle.{IsFinal}
use smart_sim.Dragon.Lifecycle.Stops.{stop_step-infos}

stop_step-IsFinal :
    (world : World) (id : Text) (s : DragonBackend) (st : Text)
    → IsFinal st s
    → IsFinal st (stop_step world id s)
unfolding cancel is_terminal
stop_step-IsFinal world id s st (info, e, final) = elim (Bool-cases (text_eq id st)) [
  | inl same ↦ (cancel info, ground (arith, stop_step-infos world id s st), refl)
  | inr other ↦ (info, ground (arith, stop_step-infos world id s st), final)
]

stop_all-IsFinal :
    (world : World) (ids : List Text) (s : DragonBackend) (st : Text)
    → IsFinal st s
    → IsFinal st (stop_all world ids s)
unfolding stop_all
stop_all-IsFinal world [] s st f = f
stop_all-IsFinal world (id ∷ ids) s st f =
    stop_all-IsFinal world ids (stop_step world id s) st (stop_step-IsFinal world id s st f)

pub stop_steps-IsFinal :
    (now : ℕ) (world : World) (s : DragonBackend) (st : Text)
    → IsFinal st s
    → IsFinal st (stop_steps now world s)
unfolding stop_steps
stop_steps-IsFinal now world s st f =
    stop_all-IsFinal world s.stop_requests (record (heartbeat now s) { stop_requests = [] }) st f
