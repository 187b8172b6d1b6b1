-- ===== src/Baseline/Ledger.antt =====
-- Entries of a baseline under any type of keys: what a list of them says of one key, and how
-- writing an entry, loading a list and sorting it change that.
use lanorme.Prelude.{
  ℕ, ◌+◌, ◌≡◌, refl, inl, inr, Bool, true, false, ◌&&◌, ◌||◌, Option, none, some, List, [], ◌∷◌,
  arith, if◌then◌else◌, Option-cases, Eq, ◌==◌, nat_eq, list_eq, pair_eq, triple_eq, any, sort,
  any-sort, sum_by, sum_by-sort,
}
use lanorme.Prelude.Dict.{lookup, insert, lookup-insert}
use lanorme.Baseline.{Tier, error, warning, Entry, is_error, merge, worst, record_one, load_onto}

module _ {ℓ} {K : Type ℓ} ⦃e : Eq K⦄ (key : K) where
  weight : K × Entry → ℕ
  weight (k, v) = if k == key then v.count else 0

  is_error_here : K × Entry → Bool
  is_error_here (k, v) = k == key && is_error v.severity

  is_here : K × Entry → Bool
  is_here (k, v) = k == key

  -- The sum of the key's counts, whether one of its entries is an error, whether it has one.
  unfoldable pub total : List (K × Entry) → ℕ
  unfolding weight
  total es = sum_by weight es

  unfoldable pub has_error : List (K × Entry) → Bool
  unfolding is_error_here
  has_error es = any is_error_here es

  unfoldable pub listed : List (K × Entry) → Bool
  unfolding is_here
  listed es = any is_here es

  -- The same of what a lookup finds.
  unfoldable pub count_at : Option Entry → ℕ
  count_at none = 0
  count_at (some v) = v.count

  unfoldable pub error_at : Option Entry → Bool
  error_at none = false
  error_at (some v) = is_error v.severity

  total-insert :
      (k : K) (v : Entry) (d : List (K × Entry))
      → total (insert k v d) + (if k == key then count_at (lookup k d) else 0)
        ≡ total d + (if k == key then v.count else 0)
  unfolding total insert lookup count_at
  total-insert k v [] = ground arith
  total-insert k v ((j, w) ∷ d) =
      ground (arith, total-insert k v d, e.same_iff j k, e.same_iff j key, e.same_iff k key)

  has_error-insert :
      (k : K) (v : Entry) (d : List (K × Entry))
      → (error_at (lookup k d) ≡ true → is_error v.severity ≡ true)
      → has_error (insert k v d) ≡ (has_error d || (k == key && is_error v.severity))
  unfolding has_error insert lookup error_at
  has_error-insert k v [] h = ground arith
  has_error-insert k v ((j, w) ∷ d) h =
      ground (arith, has_error-insert k v d, e.same_iff j k, e.same_iff j key, e.same_iff k key)

  listed-insert :
      (k : K) (v : Entry) (d : List (K × Entry)) → listed (insert k v d) ≡ (listed d || k == key)
  unfolding listed insert
  listed-insert k v [] = ground arith
  listed-insert k v ((j, w) ∷ d) =
      ground (arith, listed-insert k v d, e.same_iff j k, e.same_iff j key, e.same_iff k key)

  error_at-le : (d : List (K × Entry)) → error_at (lookup key d) ≡ true → has_error d ≡ true
  unfolding has_error lookup error_at
  error_at-le [] h = cc
  error_at-le ((j, w) ∷ d) h = ground (arith, error_at-le d)

  pub total-record_one :
      (d : List (K × Entry)) (k : K) (v : Entry)
      → total (record_one d k v) ≡ total d + (if k == key then v.count else 0)
  unfolding record_one count_at merge
  total-record_one d k v = elim (Option-cases (lookup k d)) [
    | inl new ↦ rw (new, record_one) (ground (arith, total-insert k v d))
    | inr (old, found) ↦ rw (found, record_one) (ground (arith, total-insert k (merge old v) d))
  ]

  pub listed-record_one :
      (d : List (K × Entry)) (k : K) (v : Entry)
      → listed (record_one d k v) ≡ (listed d || k == key)
  unfolding record_one
  listed-record_one d k v = elim (Option-cases (lookup k d)) [
    | inl new ↦ rw (new, record_one) (listed-insert k v d)
    | inr (old, found) ↦ rw (found, record_one) (listed-insert k (merge old v) d)
  ]

  is_error-worst : (s t : Tier) → is_error (worst s t) ≡ (is_error s || is_error t)
  unfolding worst is_error
  is_error-worst error t = refl
  is_error-worst warning t = refl

  abbrev merge_onto : Option Entry → Entry → Entry
  merge_onto none v = v
  merge_onto (some old) v = merge old v

  is_error-merge :
      (o : Option Entry) (v : Entry)
      → is_error (merge_onto o v).severity ≡ (error_at o || is_error v.severity)
  unfolding error_at merge
  is_error-merge none v = refl
  is_error-merge (some old) v = is_error-worst old.severity v.severity

  pub has_error-record_one :
      (d : List (K × Entry)) (k : K) (v : Entry)
      → has_error (record_one d k v) ≡ (has_error d || (k == key && is_error v.severity))
  unfolding record_one error_at merge
  has_error-record_one d k v = elim (Option-cases (lookup k d)) [
    | inl new ↦ rw (new, record_one) (has_error-insert k v d (rw new (λ h. cc)))
    | inr (old, found) ↦
        rw (found, record_one)
          (ground (
            arith,
            has_error-insert k (merge old v) d
                (rw found (λ h. rw (is_error-worst old.severity v.severity) (ground arith))),
            is_error-worst old.severity v.severity,
            error_at-le d,
            e.same_iff k key,
          ))
  ]

  unfoldable pub present_at : Option Entry → Bool
  present_at none = false
  present_at (some _) = true

  lookup-record_one :
      (d : List (K × Entry)) (k : K) (v : Entry)
      → lookup key (record_one d k v)
        ≡ (if k == key then some (merge_onto (lookup k d) v) else lookup key d)
  unfolding record_one
  lookup-record_one d k v = elim (Option-cases (lookup k d)) [
    | inl new ↦ rw (new, record_one) (lookup-insert k key v d)
    | inr (old, found) ↦ rw (found, record_one) (lookup-insert k key (merge old v) d)
  ]

  -- A list of entries, loaded onto a dict, adds what it says of the key to what the dict holds.
  pub count_at-load :
      (d es : List (K × Entry))
      → count_at (lookup key (load_onto d es)) ≡ count_at (lookup key d) + total es
  unfolding load_onto total count_at merge
  count_at-load d [] = omega arith
  count_at-load d ((k, v) ∷ es) =
      ground (arith, count_at-load (record_one d k v) es, lookup-record_one d k v, e.same_iff k key)

  pub error_at-load :
      (d es : List (K × Entry))
      → error_at (lookup key (load_onto d es)) ≡ (error_at (lookup key d) || has_error es)
  unfolding load_onto has_error error_at merge
  error_at-load d [] = ground arith
  error_at-load d ((k, v) ∷ es) = ground (
    arith,
    error_at-load (record_one d k v) es,
    lookup-record_one d k v,
    e.same_iff k key,
    is_error-merge (lookup k d) v,
  )

  pub present_at-load :
      (d es : List (K × Entry))
      → present_at (lookup key (load_onto d es)) ≡ (present_at (lookup key d) || listed es)
  unfolding load_onto listed present_at
  present_at-load d [] = ground arith
  present_at-load d ((k, v) ∷ es) =
      ground
        (arith, present_at-load (record_one d k v) es, lookup-record_one d k v, e.same_iff k key)

module _ {ℓ} {K : Type ℓ} ⦃e : Eq K⦄ (key : K) (le : K × Entry → K × Entry → Bool) where
  -- What a list says of a key does not depend on its order.
  pub total-sort : (es : List (K × Entry)) → total key (sort le es) ≡ total key es
  unfolding total
  total-sort es = sum_by-sort le (weight key) es

  pub has_error-sort : (es : List (K × Entry)) → has_error key (sort le es) ≡ has_error key es
  unfolding has_error
  has_error-sort es = any-sort le (is_error_here key) es

  pub listed-sort : (es : List (K × Entry)) → listed key (sort le es) ≡ listed key es
  unfolding listed
  listed-sort es = any-sort le (is_here key) es
