-- ===== src/Dragon/Admission.antt =====
-- dragonBackend.py, `_can_honor`: which requests the backend admits.
use Prim.Native.Nat.{max}
use smart_sim.Common.{
  ℕ, ◌≤◌, ◌<◌, ◌≡◌, refl, ◌↔◌, ◌≢◌, Text, inl, inr, Bool, true, false, List, [], ◌∷◌, Option, none,
  some, ltb, length, any, All, max?, arith, Option-cases, Bool-cases,
}
use smart_sim.Dragon.State.{DragonBackend, DragonRunRequest, DragonRunPolicy}
use smart_sim.Dragon.Policies.{
  Honor, honorable, refused, value_error, no_cpus, no_gpus, and_then, fits_some_node,
  can_honor_policy, can_honor,
}

-- Some node has a unit of this index.
abbrev pub has_unit : List ℕ → ℕ → Bool
has_unit counts i = any (ltb i) counts

-- Each index of an affinity list is one that some node has.
unfoldable pub Available : List ℕ → List ℕ → Type 0
Available indices counts = All (λ i. has_unit counts i ≡ true) indices

unfoldable pub PolicyAvailable : DragonBackend → Option DragonRunPolicy → Type 0
unfolding Available
PolicyAvailable s none = Unit {0}
PolicyAvailable s (some policy) =
    Available policy.cpu_affinity s.cpus × Available policy.gpu_affinity s.gpus

none-has_unit : (counts : List ℕ) (i : ℕ) → max? counts ≡ none → has_unit counts i ≡ false
none-has_unit [] i h = refl
none-has_unit (c ∷ counts) i h = elim (Option-cases (max? counts)) [
  | inl e ↦ ground (arith, e)
  | inr (m, e) ↦ ground (arith, e)
]

max-has_unit : (counts : List ℕ) (m i : ℕ) → max? counts ≡ some m → has_unit counts i ≡ ltb i m
max-has_unit [] m i h = ground arith
max-has_unit (c ∷ counts) m i h = elim (Option-cases (max? counts)) [
  | inl e ↦ ground (arith, e, none-has_unit counts i e)
  | inr (n, e) ↦ ground (arith, e, max-has_unit counts n i e)
]

none_left : (indices counts : List ℕ) → max? indices ≡ none → Available indices counts
unfolding Available
none_left [] counts h = tt
none_left (i ∷ indices) counts h = elim (Option-cases (max? indices)) [
  | inl e ↦ absurd (ground (arith, h, e))
  | inr (m, e) ↦ absurd (ground (arith, h, e))
]

max-some : (i : ℕ) (indices : List ℕ) → (m : ℕ) × (max? (i ∷ indices) ≡ some m)
max-some i indices =
    elim (max? indices)
      as (λ o. (m : ℕ) × ((elim o [ none ↦ some i | some m ↦ some (max i m) ]) ≡ some m)) [
        | none ↦ (i, refl)
        | some m ↦ (max i m, refl)
      ]

refused-ne : {message : Text} → refused message ≢ honorable
refused-ne e = cc

value_error-ne : value_error ≢ honorable
value_error-ne e = cc

and_then-honorable :
    (a b : Honor) → (and_then a b ≡ honorable) ↔ ((a ≡ honorable) × (b ≡ honorable))
and_then-honorable honorable b = (λ e. (refl, e), λ h. h.1)
and_then-honorable (refused m) b = (λ e. absurd (refused-ne e), λ h. h.0)
and_then-honorable value_error b = (λ e. absurd (value_error-ne e), λ h. h.0)

-- All indices are below a bound if their maximum is.
all_below :
    (indices counts : List ℕ) (m : ℕ)
    → max? counts ≡ some m
    → (r : ℕ) → max? indices ≡ some r
    → (r < m) ↔ Available indices counts
unfolding Available
all_below [] counts m h r e = cc
all_below (i ∷ indices) counts m h r e = elim (Option-cases (max? indices)) [
  | inl empty ↦ (
    λ less. (ground (arith, max-has_unit counts m i h), none_left indices counts empty),
    λ fits. ground (arith, max-has_unit counts m i h, fits.0),
  )
  | inr (q, f) ↦
      let (down, up) = all_below indices counts m h q f in
      (
        λ less. (ground (arith, max-has_unit counts m i h), down (ground (arith, e, f))),
        λ fits. ground (arith, max-has_unit counts m i h, fits.0, up fits.1, e, f),
      )
]

fits_some_node-Available :
    (indices counts : List ℕ) (message : Text)
    → (fits_some_node indices counts message ≡ honorable) ↔ Available indices counts
unfolding fits_some_node Available
fits_some_node-Available [] counts message = (λ e. tt, λ h. refl)
fits_some_node-Available (i ∷ indices) counts message =
    let (r, e) = max-some i indices in
    elim (Option-cases (max? counts)) [
      | inl empty ↦ (
        λ h. absurd (value_error-ne (rw (fits_some_node, empty) at h)),
        λ h. absurd (cc (h.0, none-has_unit counts i empty)),
      )
      | inr (m, found) ↦
          let (down, up) = all_below (i ∷ indices) counts m found r e in
          (λ h. down (ground (arith, h, found, e)), λ h. ground (arith, up h, found, e))
    ]

can_honor_policy-Available :
    (s : DragonBackend) (request : DragonRunRequest)
    → (can_honor_policy s request ≡ honorable) ↔ PolicyAvailable s request.policy
unfolding can_honor_policy PolicyAvailable
can_honor_policy-Available s request = policy_case request.policy
  where
    policy_case :
        (o : Option DragonRunPolicy)
        → ((elim o [
          | none ↦ honorable
          | some policy ↦
              and_then
                (fits_some_node policy.cpu_affinity s.cpus no_cpus)
                (fits_some_node policy.gpu_affinity s.gpus no_gpus)
        ])
            ≡ honorable)
          ↔ PolicyAvailable s o
    policy_case none = (λ e. tt, λ h. refl)
    policy_case (some policy) =
        let cpu = fits_some_node-Available policy.cpu_affinity s.cpus no_cpus in
        let gpu = fits_some_node-Available policy.gpu_affinity s.gpus no_gpus in
        let split =
          and_then-honorable (fits_some_node policy.cpu_affinity s.cpus no_cpus)
            (fits_some_node policy.gpu_affinity s.gpus no_gpus) in
        (λ e. (cpu.0 (split.0 e).0, gpu.0 (split.0 e).1), λ h. split.1 (cpu.1 h.0, gpu.1 h.1))

-- A request is admitted exactly if it asks for no more nodes than there are, no shutdown has been
-- requested, and each CPU and each GPU index of its policy is one that some node has.
pub can_honor-Available :
    (s : DragonBackend) (request : DragonRunRequest)
    → (can_honor s request ≡ honorable) ↔ (
        (request.nodes ≤ length s.hosts)
        × (s.shutdown_requested ≡ false)
        × PolicyAvailable s request.policy)
unfolding can_honor
can_honor-Available s request =
    let policy = can_honor_policy-Available s request in
    elim (Bool-cases (ltb (length s.hosts) request.nodes)) [
      | inl many ↦
          (λ e. absurd (refused-ne (rw (can_honor, many) at e)), λ h. absurd (ground (arith, h.0)))
      | inr few ↦ elim (Bool-cases s.shutdown_requested) [
        | inl closing ↦ (
          λ e. absurd (refused-ne (rw (can_honor, few, closing) at e)),
          λ h. absurd (cc (h.1, closing)),
        )
        | inr open_still ↦ (
          λ e. (ground arith, open_still, policy.0 (rw (can_honor, few, open_still) at e)),
          λ h. rw (can_honor, few, open_still) (policy.1 h.2),
        )
      ]
    ]
