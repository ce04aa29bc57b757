-- ===== src/Dragon/Hosts/Allocate.antt =====
-- `_allocate_step`: what a step takes.
use smart_sim.Common.{
  ℕ, zero, suc, ◌+◌, ◌≤◌, ◌<◌, List, [], ◌∷◌, ◌++◌, none, some, Text, text_eq, text_eq_iff, count,
  if◌then◌else◌, ◌≡◌, refl, arith, length, ◌⊎◌,
}
use smart_sim.Common.Dict.{Dict, set}
use smart_sim.Dragon.State.{DragonRunRequest, DragonBackend}
use smart_sim.Dragon.Start.{take_hosts, allocate_step}
use smart_sim.Dragon.Hosts.{held, owned, held-set, owned-set, owned-le-held}

-- The hosts taken are the first `n` free ones.
pub take_hosts-split :
    (st : Text) (n : ℕ) (free : List Text) (d : Dict Text)
    → n ≤ length free
    → (free ≡ (take_hosts st n free d).to_allocate ++ (take_hosts st n free d).free_hosts)
      × (length (take_hosts st n free d).to_allocate ≡ n)
unfolding take_hosts
take_hosts-split st zero free d le = (refl, refl)
take_hosts-split st (suc n) [] d le = absurd (omega arith)
take_hosts-split st (suc n) (x ∷ free) d le =
    ground (arith, take_hosts-split st n free (set x st d))

-- Each host is free, once, or allocated.
abbrev pub AtMostOnce : List Text → Dict Text → Type 0
AtMostOnce free d = (h : Text) → count h free + held h d ≤ 1

AtMostOnce-take :
    (st x : Text) (free : List Text) (d : Dict Text)
    → AtMostOnce (x ∷ free) d
    → AtMostOnce free (set x st d)
unfolding count
AtMostOnce-take st x free d once h = ground (arith, once h, held-set h x st d)

-- Taking hosts moves them from the free ones to the allocated ones.
pub take_hosts-held :
    (st : Text) (n : ℕ) (free : List Text) (d : Dict Text)
    → AtMostOnce free d
    → (h : Text)
    → count h (take_hosts st n free d).free_hosts + held h (take_hosts st n free d).allocated_hosts
      ≡ count h free + held h d
unfolding take_hosts count
take_hosts-held st zero free d once h = refl
take_hosts-held st (suc n) [] d once h = refl
take_hosts-held st (suc n) (x ∷ free) d once h = ground (
  arith,
  take_hosts-held st n free (set x st d) (AtMostOnce-take st x free d once) h,
  held-set h x st d,
  once h,
  text_eq_iff x h,
)

pub take_hosts-owned :
    (st : Text) (n : ℕ) (free : List Text) (d : Dict Text)
    → AtMostOnce free d
    → (o h : Text)
    → owned o h (take_hosts st n free d).allocated_hosts
      ≡ owned o h d + (if text_eq st o then count h (take_hosts st n free d).to_allocate else 0)
unfolding take_hosts count
take_hosts-owned st zero free d once o h = ground arith
take_hosts-owned st (suc n) [] d once o h = ground arith
take_hosts-owned st (suc n) (x ∷ free) d once o h = ground (
  arith,
  take_hosts-owned st n free (set x st d) (AtMostOnce-take st x free d once) o h,
  owned-set o h x st d,
  once h,
  owned-le-held o h d,
  text_eq_iff x h,
)

-- The allocation of a step, on every branch: it fails, with nothing changed, if the step asks for
-- no host or for more than are free, and takes the first free ones otherwise.
pub allocate_step_cases :
    (st : Text) (request : DragonRunRequest) (s : DragonBackend)
    → ((allocate_step st request s ≡ none)
        × ((request.nodes ≡ 0) ⊎ (length s.free_hosts < request.nodes)))
      ⊎ ((1 ≤ request.nodes)
          × (request.nodes ≤ length s.free_hosts)
          × (let a = take_hosts st request.nodes s.free_hosts s.allocated_hosts in
              allocate_step st request s
              ≡ some (
                a.to_allocate,
                record s { free_hosts = a.free_hosts; allocated_hosts = a.allocated_hosts },
              )))
unfolding allocate_step
allocate_step_cases st request s = ground arith
