-- ===== src/Registry/Laws.antt =====
-- What registering and unregistering change.
use lanorme.Prelude.{
  ◌≡◌, sym, ap, ◌∙◌, inl, inr, none, some, if◌then◌else◌, Bool-cases, Option-cases, ◌==◌, nat_eq,
  list_eq, pair_eq, triple_eq,
}
use lanorme.Text.{Text}
use lanorme.Prelude.Dict.{Dict, lookup, lookup-insert, lookup-erase}
use lanorme.Check.{ok, CheckApi}
use lanorme.Registry.{register, unregister}

dict_same : {A : Type 0} {a b : Dict Text A} → ok a ≡ ok b → a ≡ b
dict_same h = cc

module _ (api : CheckApi) where
  open api use {Check, name, identity}

  -- After a registration that is not refused, the check stands under its name and every other name
  -- holds what it held.
  pub lookup-register :
      (check : Check) (checks after_it : Dict Text Check) (j : Text)
      → register api check checks ≡ ok after_it
      → lookup j after_it ≡ (if name check == j then some check else lookup j checks)
  unfolding register
  lookup-register check checks after_it j h = elim (Option-cases (lookup (name check) checks)) [
    | inl fresh ↦
        ap (lookup j) (sym (dict_same (rw (register, fresh) at h)))
        ∙ lookup-insert (name check) j check checks
    | inr (old, found) ↦ elim (Bool-cases (identity old == identity check)) [
      | inl same ↦
          ap (lookup j) (sym (dict_same (rw (register, found, same) at h)))
          ∙ lookup-insert (name check) j check checks
      | inr different ↦ let never = rw (register, found, different) at h in cc
    ]
  ]

  -- Unregistering empties one name and no other.
  pub lookup-unregister :
      (wanted j : Text) (checks : Dict Text Check)
      → lookup j (unregister api wanted checks) ≡ (if wanted == j then none else lookup j checks)
  unfolding unregister
  lookup-unregister wanted j checks = lookup-erase wanted j checks
