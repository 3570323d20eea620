-- ===== src/Environment/Replicas.antt =====
-- pkg/util/env.go, getEnvReplicaCount, and strconv.ParseInt as far as it is used there: base 10 and
-- 32 bits.
pub mod Decimal
pub mod Counts
pub mod RoundTrip
use Prim.Native.Nat.{◌-◌, ◌*◌, ◌+◌}
use verrazzano_operator.Prelude.{
  ℕ, String, Bool, true, false, Option, none, some, List, [], ◌∷◌, ◌==◌, if◌then◌else◌, ltb, ◌||◌,
  ◌^◌, leb,
}
use verrazzano_operator.Prelude.Integers.{ℤ, pos, negative, int32, codes, is_byte}
use verrazzano_operator.Kube.{get_env}
use verrazzano_operator.Prog.{Prog, ret, ask, ◌>>=◌}

-- Read digits after the number `n`. What does not fit into 32 bits is refused by `signed`.
unfoldable pub read_digits : ℕ → List ℕ → Option ℕ
read_digits n [] = some n
read_digits n (c ∷ rest) =
    let later = read_digits (n * 10 + (c - b'0')) rest in
    if ltb c b'0' || ltb b'9' c then none else later

-- One digit at least.
unfoldable pub parse_uint : List ℕ → Option ℕ
unfolding read_digits
parse_uint [] = none
parse_uint (c ∷ rest) = read_digits 0 (c ∷ rest)

-- The range check, after the sign.
abbrev pub signed : Bool → Option ℕ → Option ℤ
signed neg none = none
signed false (some n) = if ltb n (2 ^ 31) then some (pos n) else none
signed true (some n) = if leb n (2 ^ 31) then some (negative n) else none

-- Whether the first byte is a sign, and then whether it is a minus.
abbrev pub sign_byte : ℕ → Option Bool
sign_byte c = if is_byte c b'+' then some false else if is_byte c b'-' then some true else none

unfoldable pub parse_int : List ℕ → Option ℤ
unfolding parse_uint
parse_int [] = none
parse_int (c ∷ rest) = elim (sign_byte c) [
  | some neg ↦ signed neg (parse_uint rest)
  | none ↦ signed false (parse_uint (c ∷ rest))
]

abbrev pub count_or : ℤ → Option ℤ → ℤ
count_or default_value none = default_value
count_or default_value (some count) = int32 count

unfoldable pub replica_count : ℤ → String → ℤ
unfolding parse_int int32
replica_count default_value value =
    if value == "" then default_value else count_or default_value (parse_int (codes value))

unfoldable pub get_env_replica_count : String → ℤ → Prog ℤ
unfolding replica_count
get_env_replica_count env_var_name default_value = do
  value ← ask (get_env env_var_name)
  ret (replica_count default_value value)

unfoldable pub get_elasticsearch_master_node_replicas : Prog ℤ
unfolding get_env_replica_count
get_elasticsearch_master_node_replicas = get_env_replica_count "ES_MASTER_NODE_REPLICAS" (pos 3)

unfoldable pub get_elasticsearch_data_node_replicas : Prog ℤ
unfolding get_env_replica_count
get_elasticsearch_data_node_replicas = get_env_replica_count "ES_DATA_NODE_REPLICAS" (pos 2)

unfoldable pub get_elasticsearch_ingest_node_replicas : Prog ℤ
unfolding get_env_replica_count
get_elasticsearch_ingest_node_replicas = get_env_replica_count "ES_INGEST_NODE_REPLICAS" (pos 1)
