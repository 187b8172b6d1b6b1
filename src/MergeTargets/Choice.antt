-- ===== src/MergeTargets/Choice.antt =====
-- Which member a merge target names.
use lanorme.Prelude.{
  ◌≤◌, ◌≡◌, refl, sym, ap, subst, ◌⊎◌, inl, inr, Bool, true, false, not, false≢true, some, List, [],
  ◌∷◌, arith, Bool-cases, nat_eq, list_eq, pair_eq, triple_eq, any, Among, first, later, Among-cons,
  Among-of_keep,
}
use lanorme.MergeTargets.{
  PackageMember, is_package_file, own_members, with_adapter, member_pool, is_smaller, largest_from,
  largest, choose_largest_member, or_else,
}

largest_from-Among :
    (best : PackageMember) (members : List PackageMember)
    → Among (largest_from best members) (best ∷ members)
unfolding largest_from
largest_from-Among best [] = first
largest_from-Among best (member ∷ members) = elim (Bool-cases (is_smaller best member)) [
  | inl smaller ↦ rw (largest_from, smaller) (later (largest_from-Among member members))
  | inr larger ↦
      rw (largest_from, larger)
        (Among-cons (λ m. Among m (best ∷ member ∷ members)) first (λ k. later (later k))
          (largest_from-Among best members))
]

is_smaller-le :
    (member other : PackageMember) → is_smaller member other ≡ true → member.lines ≤ other.lines
unfolding is_smaller
is_smaller-le member other h = ground (arith, h)

le_of_larger :
    (member other : PackageMember) → is_smaller member other ≡ false → other.lines ≤ member.lines
unfolding is_smaller
le_of_larger member other h = ground (arith, h)

largest_from-le :
    (best : PackageMember) (members : List PackageMember) (m : PackageMember)
    → Among m (best ∷ members)
    → m.lines ≤ (largest_from best members).lines
unfolding largest_from
largest_from-le best [] m a =
    Among-cons (λ b. b.lines ≤ best.lines) (omega arith) (λ n. elim n [ ]) a
largest_from-le best (member ∷ members) m a = elim (Bool-cases (is_smaller best member)) [
  | inl smaller ↦
      let above = largest_from-le member members in
      let step = is_smaller-le best member smaller in
      rw (largest_from, smaller)
        (Among-cons (λ b. b.lines ≤ (largest_from member members).lines)
          (omega (arith, step, above member first)) (λ n. above m n) a)
  | inr larger ↦
      let above = largest_from-le best members in
      let step = le_of_larger best member larger in
      rw (largest_from, larger)
        (Among-cons (λ b. b.lines ≤ (largest_from best members).lines) (above best first)
          (λ n.
            Among-cons (λ b. b.lines ≤ (largest_from best members).lines)
              (omega (arith, step, above best first)) (λ k. above m (later k)) n)
          a)
]

abbrev Pooled : List PackageMember → PackageMember → Type 0
Pooled members member = Among member members × (is_package_file member ≡ false)

own_members-Pooled :
    (members : List PackageMember) (m : PackageMember)
    → Among m (own_members members)
    → Pooled members m
unfolding own_members
own_members-Pooled members m a =
    let (at, own) = Among-of_keep (λ member. not (is_package_file member)) members a in
    (at, ground (arith, own))

Among-of_or_else :
    (m : PackageMember) (preferred pool : List PackageMember)
    → Among m (or_else preferred pool)
    → Among m preferred ⊎ Among m pool
unfolding or_else
Among-of_or_else m [] pool a = inr a
Among-of_or_else m (member ∷ preferred) pool a = inl a

pool-Pooled :
    (members : List PackageMember) (avoid : Bool) (m : PackageMember)
    → Among m (member_pool members avoid)
    → Pooled members m
unfolding member_pool with_adapter
pool-Pooled members false m a = own_members-Pooled members m a
pool-Pooled members true m a =
    elim (Among-of_or_else m (with_adapter (own_members members)) (own_members members) a) [
      | inl k ↦ own_members-Pooled members m (Among-of_keep _ (own_members members) k).0
      | inr k ↦ own_members-Pooled members m k
    ]

-- The list has an item.
abbrev IsInhabited : List PackageMember → Type 0
IsInhabited members = (m : PackageMember) × (rest : List PackageMember) × (members ≡ m ∷ rest)

or_else-IsInhabited :
    (preferred pool : List PackageMember) → IsInhabited pool → IsInhabited (or_else preferred pool)
unfolding or_else
or_else-IsInhabited [] pool h = h
or_else-IsInhabited (m ∷ rest) pool h = (m, rest, refl)

own_members-IsInhabited :
    (members : List PackageMember)
    → any (λ member. not (is_package_file member)) members ≡ true
    → IsInhabited (own_members members)
unfolding own_members
own_members-IsInhabited [] h = absurd (false≢true h)
own_members-IsInhabited (m ∷ members) h = elim (Bool-cases (is_package_file m)) [
  | inl init ↦ rw init (own_members-IsInhabited members (rw init at h))
  | inr own ↦ rw own (m, _, refl)
]

pool-IsInhabited :
    (members : List PackageMember) (avoid : Bool)
    → any (λ member. not (is_package_file member)) members ≡ true
    → IsInhabited (member_pool members avoid)
unfolding member_pool
pool-IsInhabited members false h = own_members-IsInhabited members h
pool-IsInhabited members true h =
    or_else-IsInhabited (with_adapter (own_members members)) (own_members members)
      (own_members-IsInhabited members h)

-- Where some member is not the package's own file, the choice gives a member that is not, with no
-- fewer lines than any other of its pool.
pub choose_largest_member_correct :
    (members : List PackageMember) (avoid : Bool)
    → any (λ member. not (is_package_file member)) members ≡ true
    → (m : PackageMember) × (choose_largest_member members avoid ≡ some m)
      × Among m members
      × (is_package_file m ≡ false)
      × ((n : PackageMember) → Among n (member_pool members avoid) → n.lines ≤ m.lines)
unfolding choose_largest_member largest
choose_largest_member_correct members avoid h =
    let (m, rest, e) = pool-IsInhabited members avoid h in
    let best = largest_from m rest in
    let (at, own) =
      pool-Pooled members avoid best
        (subst (λ pool. Among best pool) (sym e) (largest_from-Among m rest)) in
    (
      best,
      ap largest e,
      at,
      own,
      λ n k. largest_from-le m rest n (subst (λ pool. Among n pool) e k),
    )
