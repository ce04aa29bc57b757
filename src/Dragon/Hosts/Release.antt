-- ===== src/Dragon/Hosts/Release.antt =====
-- `_refresh_statuses`, its second loop: the release of hosts.
use smart_sim.Common.{
  ◌+◌, ◌≤◌, List, [], ◌∷◌, ◌++◌, Text, text_eq, text_eq_iff, count, count-append, if◌then◌else◌,
  ◌≡◌, refl, arith,
}
use smart_sim.Common.Dict.{del}
use smart_sim.Dragon.State.{DragonBackend}
use smart_sim.Dragon.Refresh.{remove_first, release_hosts}
use smart_sim.Dragon.Hosts.{
  held, owned, held-del, owned-del, owned-le-held, owned-le-one, held-le-one, owned_unique,
}

pub count-remove_first :
    (st x : Text) (xs : List Text)
    → count x xs ≤ 1
    → count st (remove_first x xs) ≡ (if text_eq x st then 0 else count st xs)
unfolding remove_first count
count-remove_first st x [] once = ground arith
count-remove_first st x (y ∷ ys) once =
    ground (arith, count-remove_first st x ys, text_eq_iff x st, text_eq_iff y x, text_eq_iff y st)

-- One round of `release_hosts`.
abbrev freed : Text → DragonBackend → DragonBackend
freed x s = record s {
  allocated_hosts = del x s.allocated_hosts;
  free_hosts = s.free_hosts ++ x ∷ [];
}

module _ (o : Text) where
  -- The hosts `hs` are exactly those of the step.
  abbrev Exactly : List Text → DragonBackend → Type 0
  Exactly hs s = (h : Text) → count h hs ≡ owned o h s.allocated_hosts

  Exactly-freed :
      (x : Text) (hs : List Text) (s : DragonBackend) → Exactly (x ∷ hs) s → Exactly hs (freed x s)
  unfolding count
  Exactly-freed x hs s ex h = ground (
    arith,
    ex h,
    ex x,
    owned-del o h x s.allocated_hosts,
    text_eq_iff x h,
    owned-le-one o x s.allocated_hosts,
  )

  pub release_hosts-held :
      (hs : List Text) (s : DragonBackend)
      → Exactly hs s
      → (h : Text)
      → count h (release_hosts hs s).free_hosts + held h (release_hosts hs s).allocated_hosts
        ≡ count h s.free_hosts + held h s.allocated_hosts
  unfolding release_hosts count
  release_hosts-held [] s ex h = refl
  release_hosts-held (x ∷ hs) s ex h = ground (
    arith,
    release_hosts-held hs (freed x s) (Exactly-freed x hs s ex) h,
    count-append h s.free_hosts (x ∷ []),
    held-del h x s.allocated_hosts,
    ex x,
    owned-le-held o x s.allocated_hosts,
    owned-le-one o x s.allocated_hosts,
    held-le-one x s.allocated_hosts,
    text_eq_iff x h,
  )

  pub release_hosts-owned :
      (hs : List Text) (s : DragonBackend)
      → Exactly hs s
      → (st h : Text)
      → owned st h (release_hosts hs s).allocated_hosts
        ≡ (if text_eq o st then 0 else owned st h s.allocated_hosts)
  unfolding release_hosts count
  release_hosts-owned [] s ex st h = ground (arith, ex h, text_eq_iff o st)
  release_hosts-owned (x ∷ hs) s ex st h = ground (
    arith,
    release_hosts-owned hs (freed x s) (Exactly-freed x hs s ex) st h,
    owned-del st h x s.allocated_hosts,
    ex x,
    owned_unique o st x s.allocated_hosts,
    text_eq_iff x h,
  )

pub release_hosts-keeps :
    (hs : List Text) (s : DragonBackend)
    → release_hosts hs s ≡ record s {
      free_hosts = (release_hosts hs s).free_hosts;
      allocated_hosts = (release_hosts hs s).allocated_hosts;
    }
unfolding release_hosts
release_hosts-keeps [] s = refl
release_hosts-keeps (x ∷ hs) s = release_hosts-keeps hs (freed x s)
