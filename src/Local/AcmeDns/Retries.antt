-- ===== src/Local/AcmeDns/Retries.antt =====
-- What UpdateAcmeDNSSecret writes, and what a second run makes of it.
use verrazzano_operator.Prelude.{
  String, true, false, ◌≡◌, refl, none, some, Option, inl, inr, ◌⊎◌, [], ◌∷◌, Bool-cases,
}
use verrazzano_operator.Prelude.Slices.{In}
use verrazzano_operator.Prelude.Maps.{Map, lookup, insert, lookup-insert}
use verrazzano_operator.Constants.{verrazzano_namespace, acme_dns_secret_key}
use verrazzano_operator.Kube.{
  History, Request, Error, secret_key_missing, Answer, event, management, secrets, Secret,
  cached_get, update, write_cached,
}
use verrazzano_operator.Prog.{ret}
use verrazzano_operator.Prog.Rules.{Runs, calls, returns, panics, OnSuccess}
use verrazzano_operator.Types.{SyntheticBinding}
use verrazzano_operator.Local.AcmeDns.{
  AcmeDns, dns_name, wildcard_name, add_names, is_updated, with_data, store_data,
  update_credentials, after_unmarshal, update_found, after_get, is_not_found,
  update_acme_dns_secret,
}
use verrazzano_operator.Local.AcmeDns.Entries.{Has, add_names-Has, is_updated-Has}

module _ (unmarshal : String → Map AcmeDns ⊎ Error) (marshal : Map AcmeDns → String ⊎ Error) where
  -- What is marshalled is unmarshalled to a map that reads the same.
  abbrev pub RoundTrips : Type 0
  RoundTrips =
      (m : Map AcmeDns) (data_enc : String)
      → marshal m ≡ inl data_enc
      → (back : Map AcmeDns) × (unmarshal data_enc ≡ inl back)
        × ((key : String) → lookup key back ≡ lookup key m)

  module _ (b : SyntheticBinding) (name uri : String) where
    -- The binding's names were added to the credentials of the secret that was found.
    abbrev pub HasNames : Secret → Secret → Type 0
    HasNames old new =
        (held : String) × (m : Map AcmeDns) × (data_enc : String) × (lookup acme_dns_secret_key
            old.content
          ≡ some held)
        × (unmarshal held ≡ inl m)
        × (is_updated b.name uri m ≡ true)
        × (marshal (add_names b.name uri m) ≡ inl data_enc)
        × (new ≡ with_data data_enc old)

    update_credentials-Has :
        (s : Secret) (m : Map AcmeDns)
        → Has (dns_name b.name uri) m
        → Has (wildcard_name b.name uri) m
        → update_credentials unmarshal marshal b name uri s m ≡ ret none
    unfolding update_credentials lookup
    update_credentials-Has s [] p q = cc
    update_credentials-Has s (e ∷ m) p q = rw (is_updated-Has b.name uri (e ∷ m) p q) refl

    update_found-again :
        RoundTrips
        → (old new : Secret) → HasNames old new
        → update_found unmarshal marshal b name uri new ≡ ret none
    unfolding update_found
    update_found-again round old new (held, m, data_enc, l, u, p, mar, e) =
        let (back, un, same) = round (add_names b.name uri m) data_enc mar in
        let (has, has_wild) = add_names-Has b.name uri m in
        let got : lookup acme_dns_secret_key (insert acme_dns_secret_key data_enc old.content)
            ≡ some data_enc =
          lookup-insert acme_dns_secret_key acme_dns_secret_key data_enc old.content in
        rw e (
          rw (got, update_found)
            (rw un (
              update_credentials-Has (with_data data_enc old) back
                (rw (same (dns_name b.name uri)) has)
                (rw (same (wildcard_name b.name uri)) has_wild))))

    -- The secret is read from the cache; a secret that is written, to the cache and then to the API
    -- server, is the one found with the binding's names added to its credentials, and is one of
    -- which a second run makes nothing: it returns without an error or a call.
    abbrev pub WritesOnce : History → Request → Type 0
    WritesOnce h (cached_get c k ns n) =
        (c ≡ management) × (k ≡ secrets) × (ns ≡ verrazzano_namespace) × (n ≡ name)
    WritesOnce h (write_cached c secrets new) =
        (old : Secret) × (c ≡ management)
        × In (event (cached_get management secrets verrazzano_namespace name) (some old, none)) h
        × HasNames old new
        × (after_get unmarshal marshal b name uri (some new, none) ≡ ret none)
    WritesOnce h (update c secrets ns new) =
        (c ≡ management)
        × (ns ≡ verrazzano_namespace)
        × In (event (write_cached management secrets new) tt) h
    WritesOnce h _ = ⊥

    -- The secret does not exist, or it had both names, or it was updated, without an error.
    abbrev pub NamesSettled : History → Type 0
    NamesSettled h =
        ((s : Option Secret) × (err : Error) × In
            (event (cached_get management secrets verrazzano_namespace name) (s, some err)) h
          × (is_not_found err ≡ true))
        ⊎ ((old : Secret) × (held : String) × (m : Map AcmeDns) × In
              (event (cached_get management secrets verrazzano_namespace name) (some old, none)) h
            × (lookup acme_dns_secret_key old.content ≡ some held)
            × (unmarshal held ≡ inl m)
            × (is_updated b.name uri m ≡ false))
        ⊎ ((old : Secret) × (new : Secret) × HasNames old new
            × In (event (update management secrets verrazzano_namespace new) none) h)

    module _ {X : Type 0} (round : RoundTrips) (old : Secret) (held : String)
        (l : lookup acme_dns_secret_key old.content ≡ some held) where
      Runs-store_data :
          (m : Map AcmeDns) (h : History)
          → unmarshal held ≡ inl m
          → is_updated b.name uri m ≡ true
          → In (event (cached_get management secrets verrazzano_namespace name) (some old, none)) h
          → Runs WritesOnce
              (OnSuccess NamesSettled)
              X
              h
              (store_data old (marshal (add_names b.name uri m)))
      unfolding store_data
      Runs-store_data m h un p i = go (marshal (add_names b.name uri m)) refl
        where
          go :
              (o : String ⊎ Error)
              → marshal (add_names b.name uri m) ≡ o
              → Runs WritesOnce (OnSuccess NamesSettled) X h (store_data old o)
          go (inr err) e = returns h (some err) (λ q. cc)
          go (inl data_enc) e =
              let names : HasNames old (with_data data_enc old) =
                (held, m, data_enc, l, un, p, e, refl) in
              calls h _ _
                (old, refl, i, names, update_found-again round old (with_data data_enc old) names)
                λ u.
                  calls _ _ _ (refl, refl, inl refl)
                    λ x.
                      returns _ x
                        (λ q. inr (inr (old, with_data data_enc old, names, rw q (inl refl))))

      Runs-update_credentials :
          (m : Map AcmeDns) (h : History)
          → unmarshal held ≡ inl m
          → In (event (cached_get management secrets verrazzano_namespace name) (some old, none)) h
          → Runs WritesOnce
              (OnSuccess NamesSettled)
              X
              h
              (update_credentials unmarshal marshal b name uri old m)
      unfolding update_credentials
      Runs-update_credentials [] h un i = returns h _ (λ q. cc)
      Runs-update_credentials (e ∷ m) h un i = elim (Bool-cases (is_updated b.name uri (e ∷ m))) [
        | inl p ↦ rw p (Runs-store_data (e ∷ m) h un p i)
        | inr p ↦ rw p (returns h none (λ q. inr (inl (old, held, e ∷ m, i, l, un, p))))
      ]

      Runs-after_unmarshal :
          (o : Map AcmeDns ⊎ Error) (h : History)
          → unmarshal held ≡ o
          → In (event (cached_get management secrets verrazzano_namespace name) (some old, none)) h
          → Runs WritesOnce
              (OnSuccess NamesSettled)
              X
              h
              (after_unmarshal unmarshal marshal b name uri old o)
      Runs-after_unmarshal (inr err) h un i = returns h _ (λ q. cc)
      Runs-after_unmarshal (inl m) h un i = Runs-update_credentials m h un i

    Runs-update_found :
        {X : Type 0}
        → RoundTrips
        → (old : Secret) (h : History)
        → In (event (cached_get management secrets verrazzano_namespace name) (some old, none)) h
        → Runs WritesOnce
            (OnSuccess NamesSettled)
            X
            h
            (update_found unmarshal marshal b name uri old)
    unfolding update_found
    Runs-update_found {X} round old h i = go (lookup acme_dns_secret_key old.content) refl
      where
        go :
            (o : Option String)
            → lookup acme_dns_secret_key old.content ≡ o
            → Runs WritesOnce (OnSuccess NamesSettled) X h (elim o [
              | none ↦ ret (some (secret_key_missing name verrazzano_namespace acme_dns_secret_key))
              | some held ↦ after_unmarshal unmarshal marshal b name uri old (unmarshal held)
            ])
        go none e = returns h _ (λ q. cc)
        go (some held) e = Runs-after_unmarshal round old held e (unmarshal held) h refl i

    Runs-after_get :
        {X : Type 0}
        → RoundTrips
        → (answer : Answer Secret) (h : History) → (answer ≡ (none, none) → X)
        → In (event (cached_get management secrets verrazzano_namespace name) answer) h
        → Runs WritesOnce
            (OnSuccess NamesSettled)
            X
            h
            (after_get unmarshal marshal b name uri answer)
    Runs-after_get round (none, none) h nil i = panics h (nil refl)
    Runs-after_get round (some old, none) h nil i = Runs-update_found round old h i
    Runs-after_get round (s, some err) h nil i = elim (Bool-cases (is_not_found err)) [
      | inl e ↦ rw e (returns h none (λ q. inl (s, err, i, e)))
      | inr e ↦ rw e (returns h _ (λ q. cc))
    ]

    -- UpdateAcmeDNSSecret, where what json.Marshal writes is read back by json.Unmarshal, only
    -- reads the secret from the cache, and writes it, first in the cache and then in the API
    -- server, with the binding's names added to its credentials, if one of the names was missing
    -- there. Of a secret that it has written in the cache a second run makes nothing: it returns
    -- without an error or a call, even where the API server refused the update. Where the first run
    -- returns no error, there is no such secret, or it had both names, or the API server has
    -- accepted the update. Only an answer of the lister with neither a secret nor an error panics.
    pub update_acme_dns_secret_lem :
        RoundTrips
        → (h : History)
        → Runs WritesOnce
            (OnSuccess NamesSettled)
            (Unit {0})
            h
            (update_acme_dns_secret unmarshal marshal b name uri)
          × ((answer : Answer Secret)
              → (answer ≡ (none, none) → ⊥)
              → Runs WritesOnce
                  (OnSuccess NamesSettled)
                  ⊥
                  (event (cached_get management secrets verrazzano_namespace name) answer ∷ h)
                  (after_get unmarshal marshal b name uri answer))
    unfolding update_acme_dns_secret
    update_acme_dns_secret_lem round h = (
      calls h _ _ (refl, refl, refl, refl)
          λ answer. Runs-after_get round answer _ (λ e. tt) (inl refl),
      λ answer filled. Runs-after_get round answer _ filled (inl refl),
    )
