-- ===== src/Dragon/Lifecycle/Starts.antt =====
-- The launches of a healthy runtime and the stages of the steps.
use smart_sim.Common.{ℕ, ◌≤◌, List, Text, count, ◌≡◌, sym, ◌∙◌, arith, ◌⊎◌, inl, inr}
use smart_sim.Status.{is_terminal}
use smart_sim.Dragon.State.{DragonBackend}
use smart_sim.Dragon.Hosts.Loop.{Begun}
use smart_sim.Dragon.Lifecycle.{Life, IsFinal}

module _ (s s' : DragonBackend) (started : List Text) (b : Begun s s' started) (l : Life s) where
  zero_or_more : (n : ℕ) → (n ≡ 0) ⊎ (1 ≤ n)
  zero_or_more n = grind arith

  pub Begun-Life : Life s'
  Begun-Life = record {
    once = b.records l.once;
    idle = λ st info q e. elim (zero_or_more (count st started)) [
      | inl not_started ↦
          let (same, runs, queue) = b.untouched st not_started in
          l.idle st info (omega arith) (sym same ∙ e)
      | inr begun ↦ absurd (omega (arith, (b.runs st begun).1))
    ];
    placed = λ st info e. elim (zero_or_more (count st started)) [
      | inl not_started ↦
          let (same, runs, queue) = b.untouched st not_started in
          elim (l.placed st info (sym same ∙ e)) [
            | inl settled ↦ inl settled
            | inr (inl running) ↦ inr (inl (omega arith))
            | inr (inr queued) ↦ inr (inr (omega arith))
          ]
      | inr begun ↦ inr (inl (b.runs st begun).0)
    ];
  }

  -- Only steps that were never started are launched.
  pub Begun-IsFinal : (st : Text) → IsFinal st s → IsFinal st s'
  unfolding is_terminal
  Begun-IsFinal st (info, e, final) = elim (zero_or_more (count st started)) [
    | inl not_started ↦ (info, (b.untouched st not_started).0 ∙ e, final)
    | inr begun ↦ absurd (ground (arith, (l.idle st info (b.runs st begun).2 e).unstarted))
  ]
