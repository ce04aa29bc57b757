-- ===== src/Dragon/Cooldown.antt =====
-- dragonBackend.py, `update`: the loop of the update thread and the cooldown.
use smart_sim.Common.{
  ℕ, ◌+◌, ◌-◌, ◌≡◌, refl, sym, subst, ◌∙◌, true, false, inl, inr, List, [], ◌∷◌, none, some, ltb,
  any, arith, Bool-cases,
}
use smart_sim.Dragon.State.{DragonBackend, World}
use smart_sim.Dragon.Stop.{stop_steps}
use smart_sim.Dragon.Start.{Outcome, returned, raised, start_steps}
use smart_sim.Dragon.Refresh.{refresh_statuses}
use smart_sim.Dragon.Shutdown.{
  update, update_shutdown_status, backend_of, has_cooled_down, should_shutdown, should_print_status,
  update_loop,
}
use smart_sim.Dragon.Hosts.Fixed.{
  Settings, settings, stop_steps-settings, start_steps-settings, refresh_statuses-settings,
}

-- The settings of a backend that waits for the end of its cooldown.
unfoldable IsWaiting : ℕ → ℕ → Settings → Type 0
IsWaiting since period (hosts, requested, may, start, cooldown) =
    (requested ≡ true) × (may ≡ true) × (start ≡ some since) × (cooldown ≡ period)

module _ (since period : ℕ) where
  keep :
      (s s' : DragonBackend)
      → settings s' ≡ settings s
      → IsWaiting since period (settings s)
      → IsWaiting since period (settings s')
  keep s s' e w = subst (IsWaiting since period) (sym e) w

  shutdown_status_waits :
      (now : ℕ) (s : DragonBackend)
      → IsWaiting since period (settings s)
      → IsWaiting since period (settings (update_shutdown_status now s))
  unfolding IsWaiting update_shutdown_status
  shutdown_status_waits now s (requested, may, start, cooldown) =
      (requested, ground (arith, may), start, cooldown)

  -- A round of the thread goes on waiting, also when it ends by an exception.
  update_waits :
      (now : ℕ) (world : World) (s : DragonBackend)
      → IsWaiting since period (settings s)
      → IsWaiting since period (settings (backend_of (update now world s)))
  unfolding update
  update_waits now world s w =
      let s₁ = stop_steps now world s in
      after_start (start_steps now world s₁) (
        keep s (backend_of (start_steps now world s₁))
          (start_steps-settings now world s₁ ∙ stop_steps-settings now world s) w)
    where
      after_refresh :
          (r : Outcome)
          → IsWaiting since period (settings (backend_of r))
          → IsWaiting since period (
              settings (
                backend_of (elim r [
                  | raised s' ↦ raised s'
                  | returned s' ↦ returned (update_shutdown_status now s')
                ])))
      after_refresh (raised s') v = v
      after_refresh (returned s') v = shutdown_status_waits now s' v

      after_start :
          (r : Outcome)
          → IsWaiting since period (settings (backend_of r))
          → IsWaiting since period (
              settings (
                backend_of (elim r [
                  | raised s' ↦ raised s'
                  | returned s' ↦ elim (refresh_statuses now world s') [
                    | raised s'' ↦ raised s''
                    | returned s'' ↦ returned (update_shutdown_status now s'')
                  ]
                ])))
      after_start (raised s') v = v
      after_start (returned s') v = after_refresh (refresh_statuses now world s') (
          keep s' (backend_of (refresh_statuses now world s'))
            (refresh_statuses-settings now world s') v)

  print_waits :
      (now : ℕ) (s : DragonBackend)
      → IsWaiting since period (settings s)
      → IsWaiting since period (settings (should_print_status now s).0)
  unfolding should_print_status
  print_waits now s w = elim (Bool-cases (ltb 10 (now - s.last_update_time))) [
    | inl due ↦ rw (should_print_status, due) w
    | inr early ↦ rw (should_print_status, early) w
  ]

  -- Whether a waiting backend stops.
  waiting_stops :
      (now : ℕ) (s : DragonBackend)
      → IsWaiting since period (settings s)
      → should_shutdown now s ≡ (s, ltb period (now - since))
  unfolding IsWaiting should_shutdown has_cooled_down
  waiting_stops now s (requested, may, start, cooldown) =
      ground (arith, requested, may, start, cooldown)

  waiting_ends :
      (rounds : List (ℕ × World)) (s : DragonBackend)
      → IsWaiting since period (settings s)
      → any (λ r. ltb (since + period) r.0) rounds ≡ true
      → (update_loop rounds s).1 ≡ true
  unfolding update_loop
  waiting_ends [] s w h = cc
  waiting_ends ((now, world) ∷ rounds) s w h = elim (Bool-cases (ltb period (now - since))) [
    | inl over ↦ rw (update_loop, waiting_stops now s w, over) refl
    | inr early ↦
        rw (update_loop, waiting_stops now s w, early)
          (waiting_ends rounds (should_print_status now (backend_of (update now world s))).0
            (print_waits now (backend_of (update now world s)) (update_waits now world s w))
            (ground (arith, h, early)))
  ]

-- The first reading begins the cooldown and does not stop the loop.
first_round :
    (now : ℕ) (s : DragonBackend)
    → s.shutdown_requested ≡ true
    → s.can_shutdown ≡ true
    → s.shutdown_initiation_time ≡ none
    → should_shutdown now s ≡ (record s { shutdown_initiation_time = some now }, false)
unfolding should_shutdown has_cooled_down
first_round now s requested may unstarted = ground (arith, requested, may, unstarted)

-- Once a shutdown has been requested and the server may shut down, and no cooldown has begun, the loop
-- of the update thread ends: its next round begins the cooldown, and the loop is left in the first
-- later round whose time is past the cooldown, whatever the runtime does in the rounds between.
pub update_loop_ends :
    (now : ℕ) (world : World) (rounds : List (ℕ × World)) (s : DragonBackend)
    → s.shutdown_requested ≡ true
    → s.can_shutdown ≡ true
    → s.shutdown_initiation_time ≡ none
    → any (λ r. ltb (now + s.cooldown_period) r.0) rounds ≡ true
    → (update_loop ((now, world) ∷ rounds) s).1 ≡ true
unfolding update_loop IsWaiting
update_loop_ends now world rounds s requested may unstarted later =
    let s' = record s { shutdown_initiation_time = some now } in
    let next = (should_print_status now (backend_of (update now world s'))).0 in
    let waits =
      print_waits now s.cooldown_period now (backend_of (update now world s'))
        (update_waits now s.cooldown_period now world s' (requested, may, refl, refl)) in
    rw (update_loop, first_round now s requested may unstarted)
      (waiting_ends now s.cooldown_period rounds next waits later)
