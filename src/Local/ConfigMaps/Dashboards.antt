-- ===== src/Local/ConfigMaps/Dashboards.antt =====
-- The content of a binding's config map, and the comparison of the content of two.
use verrazzano_operator.Prelude.{
  and_split, String, Bool, true, false, ◌≡◌, refl, sym, ◌∙◌, Option, none, some, List, [], ◌∷◌, ◌⊎◌,
  inl, inr, not, ◌&&◌, ◌==◌, eq_iff, arith, Bool-cases, Option-cases,
}
use verrazzano_operator.Prelude.Maps.{Map, lookup}
use verrazzano_operator.Kube.{Error}
use verrazzano_operator.Util.{contains}
use verrazzano_operator.Local.ConfigMaps.{replace_slashes, has_entries, deep_equal}

abbrev pub are_distinct : List String → Bool
are_distinct [] = true
are_distinct (a ∷ rest) = not (contains rest a) && are_distinct rest

module _ (asset : String → String ⊎ Error) where
  -- The asset of the dashboard is the entry at its key.
  abbrev pub Holds : Map String → String → Type 0
  Holds m d =
      (content : String) × (asset d ≡ inl content) × (lookup (replace_slashes d) m ≡ some content)

has_entries_sound :
    (m n : Map String) (key value : String)
    → has_entries m n ≡ true
    → lookup key n ≡ some value
    → lookup key m ≡ some value
unfolding has_entries lookup
has_entries_sound m [] key value h l = cc
has_entries_sound m ((k, v) ∷ n) key value h l =
    go (lookup k m) refl h (λ r. has_entries_sound m n key value r)
  where
    go :
        (o : Option String)
        → lookup k m ≡ o
        → elim o [ none ↦ false | some held ↦ (held == v) && has_entries m n ] ≡ true
        → (has_entries m n ≡ true → lookup key n ≡ some value → lookup key m ≡ some value)
        → lookup key m ≡ some value
    go none e h later = cc
    go (some held) e h later =
        let split = and_split (held == v) (has_entries m n) h in
        elim (Bool-cases (k == key)) [
          | inl q ↦ ground (arith, eq_iff k key, eq_iff held v)
          | inr q ↦ later split.1 (ground arith)
        ]

-- Where DeepEqual holds, both maps are there and every key reads the same in both.
pub deep_equal_sound :
    (held : Option (Map String)) (wanted : Map String)
    → deep_equal held (some wanted) ≡ true
    → (m : Map String) × (held ≡ some m) × ((key : String) → lookup key m ≡ lookup key wanted)
unfolding deep_equal
deep_equal_sound none wanted h = cc
deep_equal_sound (some m) wanted h = (m, refl, same)
  where
    same : (key : String) → lookup key m ≡ lookup key wanted
    same key = elim (Option-cases (lookup key m)) [
      | inr (v, e) ↦ e ∙ sym (has_entries_sound wanted m key v (ground arith) e)
      | inl absent ↦ elim (Option-cases (lookup key wanted)) [
        | inl e ↦ absent ∙ sym e
        | inr (v, e) ↦ has_entries_sound m wanted key v (ground arith) e ∙ sym e
      ]
    ]
