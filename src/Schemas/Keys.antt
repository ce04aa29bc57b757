-- ===== src/Schemas/Keys.antt =====
-- schemas/utils.py: the keys that a registry accepts.
use smart_sim.Common.Results.{returned, Outcome-cases}
use smart_sim.Common.{
  ◌≤◌, ◌≡◌, ◌↔◌, inl, inr, false, ◌∷◌, [], List, Text, text_eq, Bool-cases, arith, All, count, some,
  sym, subst, if◌then◌else◌,
}
use smart_sim.Common.Dict.{get?, get?-set, contains, keys, set, once-set}
use smart_sim.Common.Entries.{All-set}
use smart_sim.Common.Split.{has_char}
use smart_sim.Schemas.{Result, SchemaRegistry, delimiter, register, register_all, is_empty}

-- A key that a message can begin with.
abbrev pub IsKey : Text → Type 0
IsKey key = (has_char delimiter key ≡ false) × (is_empty key ≡ false)

-- A registry whose keys stand once and are keys that a message can begin with.
unfoldable pub IsRegistry : SchemaRegistry → Type 0
IsRegistry registry = ((key : Text) → count key (keys registry) ≤ 1) × All (λ e. IsKey e.0) registry

pub empty-IsRegistry : IsRegistry []
unfolding IsRegistry keys count
empty-IsRegistry = (λ key. omega arith, tt)

returned-injective :
    (a b : SchemaRegistry) → ◌≡◌ {A = Result SchemaRegistry} (returned a) (returned b) → a ≡ b
returned-injective a b e = cc

register-accepted :
    (key cls : Text) (registry next : SchemaRegistry)
    → register key cls registry ≡ returned next
    → IsKey key × (contains key registry ≡ false) × (next ≡ set key cls registry)
unfolding register
register-accepted key cls registry next h = elim (Bool-cases (has_char delimiter key)) [
  | inl bad ↦ absurd (ground arith)
  | inr plain ↦ elim (Bool-cases (is_empty key)) [
    | inl bad ↦ absurd (ground arith)
    | inr long ↦ elim (Bool-cases (contains key registry)) [
      | inl bad ↦ absurd (ground arith)
      | inr new ↦ ((plain, long), new, sym (returned-injective _ _ (rw (plain, long, new) at h)))
    ]
  ]
]

-- A key is accepted, in a way that it then finds the class while the other keys find what they found
-- before, exactly if it has a character, has no delimiter and is not in the registry yet.
pub register-accepts :
    (key cls : Text) (registry : SchemaRegistry)
    → ((next : SchemaRegistry) × (register key cls registry ≡ returned next)
        × ((j : Text) → get? j next ≡ (if text_eq key j then some cls else get? j registry)))
      ↔ (IsKey key × (contains key registry ≡ false))
unfolding register
register-accepts key cls registry = (
  λ (next, h, found). let (fine, new, e) = register-accepted key cls registry next h in (fine, new),
  λ ((plain, long), new).
      (set key cls registry, rw (plain, long, new), λ j. get?-set j key cls registry),
)

register-IsRegistry :
    (key cls : Text) (registry next : SchemaRegistry)
    → IsRegistry registry
    → register key cls registry ≡ returned next
    → IsRegistry next
unfolding IsRegistry
register-IsRegistry key cls registry next (once, fine) h =
    let (key_fine, new, e) = register-accepted key cls registry next h in
    rw e (
      λ j. once-set j key cls registry once,
      All-set (λ e. IsKey e.0) key cls registry fine key_fine,
    )

pub register_all-IsRegistry :
    (classes : List (Text × Text)) (registry next : SchemaRegistry)
    → IsRegistry registry
    → register_all classes registry ≡ returned next
    → IsRegistry next
unfolding register_all
register_all-IsRegistry [] registry next fine h = subst IsRegistry (returned-injective _ _ h) fine
register_all-IsRegistry ((key, cls) ∷ classes) registry next fine h =
    elim (Outcome-cases (register key cls registry)) [
      | inl (mid, e) ↦
          register_all-IsRegistry classes mid next (register-IsRegistry key cls registry mid fine e)
            (rw (e, register_all) at h)
      | inr (x, e) ↦ absurd (ground arith)
    ]
