-- ===== src/Config/Keys.antt =====
-- Which top-level keys a config may have.
use lanorme.Prelude.{
  ◌≡◌, refl, ap, ◌≢◌, ◌↔◌, inl, inr, Bool, true, not, ◌&&◌, ◌||◌, List, [], ◌∷◌, arith, Bool-cases,
  nat_eq, list_eq, pair_eq, triple_eq, keep, contains, Among, first, later, Among-keep, sort,
  Among-sort, text_leb,
}
use lanorme.Text.{Text}
use lanorme.Check.{ok}
use lanorme.Config.{Table, table_keys}
use lanorme.Config.Files.{refuse_keys, unknown_top_level, reject_unknown_top_level_keys}
use lanorme.Checkconfig.{run_keys}

-- The key is a run key or the name of a check.
abbrev pub is_known : List Text → Text → Bool
is_known checks k = contains run_keys k || contains checks k

refuse_keys-Among :
    (origin k : Text) (unknown : List Text) → Among k unknown → refuse_keys origin unknown ≢ ok tt
unfolding refuse_keys
refuse_keys-Among origin k [] m = elim m [ ]
refuse_keys-Among origin k (u ∷ unknown) m = λ never. cc

none_unknown :
    (checks : List Text) (keys : List Text)
    → ((k : Text) → Among k keys → is_known checks k ≡ true)
    → keep (λ k. not (contains run_keys k) && not (contains checks k)) keys ≡ []
none_unknown checks [] h = refl
none_unknown checks (k ∷ keys) h =
    let rest = none_unknown checks keys (λ j m. h j (later m)) in ground (arith, rest, h k first)

-- A config passes exactly if each of its top-level keys is a run key or the name of a check.
pub reject_unknown_top_level_keys_iff :
    (checks : List Text) (config : Table) (origin : Text)
    → (reject_unknown_top_level_keys checks config origin ≡ ok tt)
      ↔ ((k : Text) → Among k (table_keys config) → is_known checks k ≡ true)
unfolding reject_unknown_top_level_keys unknown_top_level refuse_keys sort
reject_unknown_top_level_keys_iff checks config origin = (
  λ passes k m. elim (Bool-cases (is_known checks k)) [
    | inl known ↦ known
    | inr unknown ↦ absurd (
        refuse_keys-Among origin k (unknown_top_level checks config)
          (Among-sort text_leb
            (keep (λ k. not (contains run_keys k) && not (contains checks k)) (table_keys config))
            (Among-keep (λ k. not (contains run_keys k) && not (contains checks k))
              (ground (arith, unknown)) m))
          passes)
  ],
  λ known.
      ap (λ ks. refuse_keys origin (sort text_leb ks))
        (none_unknown checks (table_keys config) known),
)
