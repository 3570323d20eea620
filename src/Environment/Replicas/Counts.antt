-- ===== src/Environment/Replicas/Counts.antt =====
-- What getEnvReplicaCount returns.
use verrazzano_operator.Prelude.{
  String, ◌≡◌, refl, sym, subst, arith, Option, none, some, [], ◌⊎◌, inl, inr, Bool-cases, ◌==◌,
  eq_iff,
}
use verrazzano_operator.Prelude.Slices.{In}
use verrazzano_operator.Prelude.Integers.{ℤ, pos, negsuc, IsInt32, int32, codes}
use verrazzano_operator.Kube.{event, get_env}
use verrazzano_operator.Prog.Rules.{Ensures, calls, returns}
use verrazzano_operator.Environment.Replicas.{
  parse_int, count_or, replica_count, get_env_replica_count, String, Option,
}
use verrazzano_operator.Environment.Replicas.Decimal.{Spells, parse_int_sound, parse_int_complete}

-- The conversion to int32 changes no number that fits.
pub int32-fits : (z : ℤ) → IsInt32 z → int32 z ≡ z
unfolding int32
int32-fits (pos n) fits = ground arith
int32-fits (negsuc n) fits = ground arith

-- The count is the value of the text, or the text has no value of 32 bits and the count is the
-- default.
abbrev pub Counts : ℤ → String → ℤ → Type 0
Counts default value count =
    IsInt32 count
    × (Spells (codes value) count
        ⊎ (((z : ℤ) → Spells (codes value) z → IsInt32 z → ⊥) × (count ≡ default)))

replica_count-text :
    (default : ℤ) (value : String)
    → IsInt32 default
    → Counts default value (count_or default (parse_int (codes value)))
replica_count-text default value fits = go (parse_int (codes value)) refl
  where
    go : (o : Option ℤ) → parse_int (codes value) ≡ o → Counts default value (count_or default o)
    go none e = (
      fits,
      inr (
        (λ z spells small. ground (arith, parse_int_complete (codes value) z spells small)),
        refl,
      ),
    )
    go (some z) e =
        let (spells, small) = parse_int_sound (codes value) z e in
        rw (int32-fits z small) (small, inl spells)

replica_count-Counts :
    (default : ℤ) (value : String)
    → IsInt32 default
    → Counts default value (replica_count default value)
unfolding replica_count
replica_count-Counts default value fits = elim (Bool-cases (value == "")) [
  | inl e ↦ rw e (
      subst (λ v. Counts default v default) (sym ((eq_iff value "").0 e))
        (
          fits,
          inr ((λ z spells small. ground (arith, parse_int_complete [] z spells small)), refl),
        ))
  | inr e ↦ rw e (replica_count-text default value fits)
]

-- getEnvReplicaCount reads its variable and makes no other call. For a default that is an int32,
-- its result is an int32: the exact value of the text where the text is a decimal number, with a
-- sign or none, whose value is an int32, and the default for every other text, the empty one
-- included.
pub get_env_replica_count_lem :
    (var : String) (default : ℤ)
    → IsInt32 default
    → Ensures
        (λ h r. r ≡ get_env var)
        (λ h count.
          (value : String) × In (event (get_env var) value) h × Counts default value count)
        (get_env_replica_count var default)
unfolding get_env_replica_count
get_env_replica_count_lem var default fits h =
    calls h (get_env var) _ refl
      λ value. returns _ _ (value, inl refl, replica_count-Counts default value fits)
