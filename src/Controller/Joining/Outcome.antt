-- ===== src/Controller/Joining/Outcome.antt =====
-- pkg/controller/controller.go, processManagedCluster as a whole.
use verrazzano_operator.Prelude.{Option, String, ◌≡◌, refl, ◌⊎◌, inl, inr, none, some, Option-cases}
use verrazzano_operator.Prelude.Slices.{In}
use verrazzano_operator.Prelude.Maps.{Map, lookup}
use verrazzano_operator.Kube.{Error, Answer, Connection, History, event, ServiceAccount}
use verrazzano_operator.Prog.Rules.{Runs, returns, panics, calls, Runs-mono, Runs-frame}
use verrazzano_operator.Local.AcmeDns.{AcmeDns}
use verrazzano_operator.Packages.{own_packages}
use verrazzano_operator.Controller.{Controller}
use verrazzano_operator.Controller.Handlers.{
  put_connection, with_service_account, process_managed_cluster,
}
use verrazzano_operator.Managed.Connections.Built.{Refused}
use verrazzano_operator.Controller.Joining.{asks_account, IsReady, Joins, JoinedOrSame, Runs-build}

-- The service account was not got, and the controller is as it was. Or it was got, and the
-- controller has its pull secrets; if the cluster had a connection, or one of the steps to build one
-- answered an error, this is all, and otherwise the controller also has the cluster's connection,
-- which was built.
abbrev pub JoinOutcome : String → String → Controller → History → Controller → Type 0
JoinOutcome n path c h c' =
    ((c' ≡ c)
      × (found : Option ServiceAccount) × (e : Error) × In (event asks_account (found, some e)) h)
    ⊎ ((sa : ServiceAccount) × In (event asks_account (some sa, none)) h
        × let c1 : Controller = record c { image_pull_secrets = sa.image_pull_secrets } in
          ((c' ≡ c1)
            × (((conn : Connection) × (lookup n c.managed_cluster_connections ≡ some conn))
                ⊎ ((e : Error) × Refused path c.stop_ch e h)))
          ⊎ ((conn : Connection) × (lookup n c.managed_cluster_connections ≡ none)
              × IsReady path c.stop_ch conn h
              × (c' ≡ put_connection n conn c1)))

module _ (n path : String) (c : Controller) (asset : String → String ⊎ Error)
    (unmarshal : String → Map AcmeDns ⊎ Error) (marshal : Map AcmeDns → String ⊎ Error)
    (own : c.packages ≡ own_packages asset unmarshal marshal) where
  Runs-with_service_account :
      (answer : Answer ServiceAccount) (h : History)
      → In (event asks_account answer) h
      → Runs
          (Joins path c.stop_ch)
          (JoinOutcome n path c)
          (Unit {0})
          h
          (with_service_account n path c answer)
  unfolding JoinedOrSame
  Runs-with_service_account (found, some e) h m = returns h c (inl (refl, found, e, m))
  Runs-with_service_account (none, none) h m = panics h tt
  Runs-with_service_account (some sa, none) h m =
      let c1 : Controller = record c { image_pull_secrets = sa.image_pull_secrets } in
      elim (Option-cases (lookup n c.managed_cluster_connections)) [
        | inr (conn, e) ↦
            rw (e, with_service_account) (returns h c1 (inr (sa, m, inl (refl, inl (conn, e)))))
        | inl e ↦
            rw (e, with_service_account)
              (Runs-mono _ h (outcome e) (
                Runs-frame (In (event asks_account (some sa, none))) (λ _ _ i. inr i) _ h m
                  (Runs-build n path c1 asset unmarshal marshal own h)))
      ]
    where
      outcome :
          lookup n c.managed_cluster_connections ≡ none
          → (h' : History) (c' : Controller)
          → JoinedOrSame n path
              (record c { image_pull_secrets = sa.image_pull_secrets })
              asset
              unmarshal
              marshal
              own
              h'
              c'
            × In (event asks_account (some sa, none)) h'
          → JoinOutcome n path c h' c'
      outcome fresh h' c' (inl (e, x, refused), i) = inr (sa, i, inl (e, inr (x, refused)))
      outcome fresh h' c' (inr (conn, ready, e), i) = inr (sa, i, inr (conn, fresh, ready, e))

  pub process_managed_cluster_lem :
      (h : History)
      → Runs
          (Joins path c.stop_ch)
          (JoinOutcome n path c)
          (Unit {0})
          h
          (process_managed_cluster n path c)
  unfolding process_managed_cluster
  process_managed_cluster_lem h =
      calls h _ _ (inl refl) λ answer. Runs-with_service_account answer _ (inl refl)
