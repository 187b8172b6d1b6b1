-- ===== src/Scan/Cache.antt =====
-- lanorme/scan.py: the parse cache of a run, over any type of outcome.
use lanorme.Prelude.{
  ℕ, suc, ◌≤◌, ◌<◌, ◌≡◌, refl, ◌∙◌, subst, ◌⊎◌, inl, inr, true, false, ◌||◌, false≢true, Option,
  none, some, List, [], ◌∷◌, arith, ltb, if◌then◌else◌, Bool-cases, ◌==◌, eq_iff, nat_eq, list_eq,
  pair_eq, triple_eq, length,
}
use lanorme.Text.{Text}
use lanorme.Prelude.Dict.{Dict, lookup, insert, has_key, lookup-insert}

pub record SourceCache {ℓ} (A : Type ℓ) : Type ℓ where
  pub entries : Dict Text A
  pub limit : ℕ

-- `_CACHE_LIMIT`
unfoldable pub cache_limit : ℕ
cache_limit = 5000

module _ {ℓ} {A : Type ℓ} where
  unfoldable pub new_cache : ℕ → SourceCache A
  new_cache limit = record { entries = []; limit = limit }

  unfoldable pub cached : Text → SourceCache A → Option A
  cached key cache = lookup key cache.entries

  unfoldable pub store : Text → A → SourceCache A → SourceCache A
  store key outcome cache =
      if has_key key cache.entries || ltb (length cache.entries) cache.limit
      then record cache { entries = insert key outcome cache.entries }
      else cache

  unfoldable pub clear : SourceCache A → SourceCache A
  clear cache = record cache { entries = [] }

-- What a run does to the cache.
pub data CacheStep {ℓ} (A : Type ℓ) : Type ℓ where
  storing : Text → A → CacheStep A
  clearing : CacheStep A

module _ {ℓ} {A : Type ℓ} where
  unfoldable pub after_steps : List (CacheStep A) → SourceCache A → SourceCache A
  unfolding store clear
  after_steps [] cache = cache
  after_steps (storing key outcome ∷ steps) cache = after_steps steps (store key outcome cache)
  after_steps (clearing ∷ steps) cache = after_steps steps (clear cache)

  -- What was stored last under a key since the last clearing: a memory without a limit.
  abbrev pub last_stored : List (CacheStep A) → (Text → Option A) → Text → Option A
  last_stored [] before_them = before_them
  last_stored (storing key outcome ∷ steps) before_them =
      last_stored steps (λ k. if key == k then some outcome else before_them k)
  last_stored (clearing ∷ steps) before_them = last_stored steps (λ k. none)

  length-insert_old :
      (key : Text) (a : A) (d : Dict Text A)
      → has_key key d ≡ true
      → length (insert key a d) ≡ length d
  unfolding insert has_key
  length-insert_old key a [] h = absurd (false≢true h)
  length-insert_old key a ((k, b) ∷ d) h = ground (arith, h, length-insert_old key a d)

  length-insert-le :
      (key : Text) (a : A) (d : Dict Text A) → length (insert key a d) ≤ suc (length d)
  unfolding insert
  length-insert-le key a [] = omega arith
  length-insert-le key a ((k, b) ∷ d) = ground (arith, length-insert-le key a d)

  -- A cache that keeps its limit, and holds nothing but what the memory holds.
  record IsView (memory : Text → Option A) (cache : SourceCache A) : Type ℓ where
    within : length cache.entries ≤ cache.limit
    agrees : (k : Text) → (cached k cache ≡ none) ⊎ (cached k cache ≡ memory k)

  lookup-absent : (key : Text) (d : Dict Text A) → has_key key d ≡ false → lookup key d ≡ none
  unfolding lookup has_key
  lookup-absent key [] h = refl
  lookup-absent key ((k, b) ∷ d) h = ground (arith, h, lookup-absent key d)

  insert-IsView :
      (memory : Text → Option A) (cache : SourceCache A) (key : Text) (a : A)
      → IsView memory cache
      → length (insert key a cache.entries) ≤ cache.limit
      → IsView
          (λ k. if key == k then some a else memory k)
          (record cache { entries = insert key a cache.entries })
  unfolding cached
  insert-IsView memory cache key a v fits = record {
    within = fits;
    agrees = λ k. elim (Bool-cases (key == k)) [
      | inl same ↦ inr (lookup-insert key k a cache.entries ∙ rw same refl)
      | inr other ↦
          let kept : lookup k (insert key a cache.entries) ≡ lookup k cache.entries =
            lookup-insert key k a cache.entries ∙ rw other refl in
          elim (v.agrees k) [
            | inl absent ↦ inl (kept ∙ absent)
            | inr same ↦ inr (kept ∙ (same ∙ rw other refl))
          ]
    ];
  }

  store-IsView :
      (memory : Text → Option A) (cache : SourceCache A) (key : Text) (a : A)
      → IsView memory cache
      → IsView (λ k. if key == k then some a else memory k) (store key a cache)
  unfolding store cached
  store-IsView memory cache key a v = elim (Bool-cases (has_key key cache.entries)) [
    | inl old ↦
        rw (store, old)
          (insert-IsView memory cache key a v
            (omega (arith, v.within, length-insert_old key a cache.entries old)))
    | inr new ↦ elim (Bool-cases (ltb (length cache.entries) cache.limit)) [
      | inl room ↦
          rw (store, new, room)
            (insert-IsView memory cache key a v (
              let below : length cache.entries < cache.limit = ground (arith, room) in
              omega (arith, below, length-insert-le key a cache.entries)))
      | inr full ↦
          rw (store, new, full)
            (record {
              within = v.within;
              agrees = λ k. elim (Bool-cases (key == k)) [
                | inl same ↦ inl (
                    subst (λ j. lookup j cache.entries ≡ none) ((eq_iff key k).0 same)
                      (lookup-absent key cache.entries new))
                | inr other ↦ elim (v.agrees k) [
                  | inl absent ↦ inl absent
                  | inr holds ↦ inr (holds ∙ rw other refl)
                ]
              ];
            })
    ]
  ]

  after_steps-IsView :
      (steps : List (CacheStep A)) (memory : Text → Option A) (cache : SourceCache A)
      → IsView memory cache
      → IsView (last_stored steps memory) (after_steps steps cache)
  unfolding after_steps clear cached lookup
  after_steps-IsView [] memory cache v = v
  after_steps-IsView (storing key a ∷ steps) memory cache v =
      after_steps-IsView steps (λ k. if key == k then some a else memory k) (store key a cache)
        (store-IsView memory cache key a v)
  after_steps-IsView (clearing ∷ steps) memory cache v =
      after_steps-IsView steps (λ k. none) (clear cache)
        (record { within = omega arith; agrees = λ k. inl refl })

  after_steps-limit :
      (steps : List (CacheStep A)) (cache : SourceCache A)
      → (after_steps steps cache).limit ≡ cache.limit
  unfolding after_steps store clear
  after_steps-limit [] cache = refl
  after_steps-limit (storing key a ∷ steps) cache =
      after_steps-limit steps (store key a cache) ∙ ground arith
  after_steps-limit (clearing ∷ steps) cache = after_steps-limit steps (clear cache) ∙ refl

  -- Whatever a run stores and clears, the cache never holds more entries than its limit, and under
  -- each key it holds nothing or what was stored there last since the last clearing.
  pub after_steps-bounded :
      (limit : ℕ) (steps : List (CacheStep A))
      → (length (after_steps steps (new_cache limit)).entries ≤ limit)
        × ((k : Text)
            → (cached k (after_steps steps (new_cache limit)) ≡ none)
              ⊎ (cached k (after_steps steps (new_cache limit)) ≡ last_stored steps (λ j. none) k))
  unfolding new_cache cached lookup
  after_steps-bounded limit steps =
      let v =
        after_steps-IsView steps (λ k. none) (new_cache limit)
          (record { within = omega arith; agrees = λ k. inl refl }) in
      (omega (arith, v.within, after_steps-limit steps (new_cache limit)), v.agrees)
