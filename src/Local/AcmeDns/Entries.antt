-- ===== src/Local/AcmeDns/Entries.antt =====
-- The entries that UpdateAcmeDNSSecret adds, and when it adds any.
use verrazzano_operator.Prelude.{
  not, ◌↔◌, String, Bool, true, false, ◌≡◌, refl, none, some, Option, inl, inr, Option-cases,
  Bool-cases, ◌==◌, ◌||◌, eq_iff, arith, if◌then◌else◌, is_some, or_else, eq_refl,
}
use verrazzano_operator.Prelude.Maps.{Map, lookup, insert, lookup-insert}
use verrazzano_operator.Local.AcmeDns.{
  AcmeDns, credentials_or_zero, dns_name, wildcard_name, add_missing, add_names, is_updated,
}

-- A read: the old entry, and where there is none and the name is the one that was added, the new
-- one.
lookup-add_missing :
    (name read : String) (c : AcmeDns) (m : Map AcmeDns)
    → lookup read (add_missing name c m)
      ≡ or_else (lookup read m) (if name == read then some c else none)
unfolding add_missing
lookup-add_missing name read c m = elim (Option-cases (lookup name m)) [
  | inl e ↦ rw e (ground (arith, lookup-insert name read c m, eq_iff name read))
  | inr (held, e) ↦ rw e (ground (arith, eq_iff name read))
]

pub lookup-add_names :
    (b uri read : String) (m : Map AcmeDns)
    → lookup read (add_names b uri m)
      ≡ or_else (lookup read m) (
          if (dns_name b uri == read) || (wildcard_name b uri == read)
          then some (credentials_or_zero (lookup uri m))
          else none)
unfolding add_names
lookup-add_names b uri read m =
    let c = credentials_or_zero (lookup uri m) in
    ground (
      arith,
      lookup-add_missing (wildcard_name b uri) read c (add_missing (dns_name b uri) c m),
      lookup-add_missing (dns_name b uri) read c m,
    )

-- The map has an entry under the name.
abbrev pub Has : String → Map AcmeDns → Type 0
Has name m = is_some (lookup name m) ≡ true

or_else-some : (o : Option AcmeDns) (c : AcmeDns) → is_some (or_else o (some c)) ≡ true
or_else-some none c = refl
or_else-some (some d) c = refl

pub add_names-Has :
    (b uri : String) (m : Map AcmeDns)
    → Has (dns_name b uri) (add_names b uri m) × Has (wildcard_name b uri) (add_names b uri m)
add_names-Has b uri m =
    let c = credentials_or_zero (lookup uri m) in
    (
      rw (lookup-add_names b uri (dns_name b uri) m)
          (rw (eq_refl (dns_name b uri)) (or_else-some (lookup (dns_name b uri) m) c)),
      rw (lookup-add_names b uri (wildcard_name b uri) m)
          (elim (Bool-cases (dns_name b uri == wildcard_name b uri)) [
            | inl e ↦ rw e (or_else-some (lookup (wildcard_name b uri) m) c)
            | inr e ↦ rw e (
                rw (eq_refl (wildcard_name b uri))
                  (or_else-some (lookup (wildcard_name b uri) m) c))
          ]),
    )

-- Nothing is added where both names have an entry.
pub is_updated-Has :
    (b uri : String) (m : Map AcmeDns)
    → Has (dns_name b uri) m
    → Has (wildcard_name b uri) m
    → is_updated b uri m ≡ false
unfolding is_updated add_missing
is_updated-Has b uri m p q = rw p (rw q refl)

is_updated-false :
    (b uri : String) (m : Map AcmeDns)
    → is_updated b uri m ≡ false
    → Has (dns_name b uri) m × Has (wildcard_name b uri) m
unfolding is_updated add_missing
is_updated-false b uri m h = go (is_some (lookup (dns_name b uri) m)) refl h
  where
    go :
        (o : Bool)
        → is_some (lookup (dns_name b uri) m) ≡ o
        → (not o
            || not (
                is_some (
                  lookup (wildcard_name b uri) (
                    if o
                    then m
                    else insert (dns_name b uri) (credentials_or_zero (lookup uri m)) m))))
          ≡ false
        → Has (dns_name b uri) m × Has (wildcard_name b uri) m
    go true e h = (e, ground arith)
    go false e h = cc

-- A name that has an entry reads the same after both checks.
not_updated-same :
    (b uri read : String) (m : Map AcmeDns)
    → Has (dns_name b uri) m × Has (wildcard_name b uri) m
    → lookup read (add_names b uri m) ≡ lookup read m
not_updated-same b uri read m (has, has_wild) = ground (
  arith,
  lookup-add_names b uri read m,
  eq_iff (dns_name b uri) read,
  eq_iff (wildcard_name b uri) read,
)

-- After both checks of UpdateAcmeDNSSecret the map has its old entries, and the credentials of the
-- URI, or empty ones, under each of the two names that had none; it has no other entry. The flag
-- `updated` is false exactly if every key reads the same before and after.
pub add_names_lem :
    (b uri : String) (m : Map AcmeDns)
    → ((read : String)
        → lookup read (add_names b uri m)
          ≡ or_else (lookup read m) (
              if (dns_name b uri == read) || (wildcard_name b uri == read)
              then some (credentials_or_zero (lookup uri m))
              else none))
      × ((is_updated b uri m ≡ false)
          ↔ ((read : String) → lookup read (add_names b uri m) ≡ lookup read m))
add_names_lem b uri m = (
  (λ read. lookup-add_names b uri read m),
  (
    (λ off read. not_updated-same b uri read m (is_updated-false b uri m off)),
    λ same.
        let (has, has_wild) = add_names-Has b uri m in
        is_updated-Has b uri m (rw (← same (dns_name b uri)) has)
          (rw (← same (wildcard_name b uri)) has_wild),
  ),
)
