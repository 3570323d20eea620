-- ===== src/Local/ConfigMaps/Updates.antt =====
-- What UpdateConfigMaps writes, and what it leaves.
use verrazzano_operator.Prelude.{
  String, Bool, false, ◌≡◌, refl, none, some, Option, ◌⊎◌, inl, inr, Bool-cases, ◌∷◌, [], List,
}
use Prim.Native.String.{◌++◌ as str_append}
use verrazzano_operator.Prelude.Slices.{In}
use verrazzano_operator.Prelude.Maps.{Map, lookup}
use verrazzano_operator.Constants.{verrazzano_namespace}
use verrazzano_operator.Kube.{
  History, Request, Error, Answer, event, management, config_maps, ConfigMap, cached_get,
  cached_list, update, delete, lookup_env,
}
use verrazzano_operator.Prog.{for_each_listed}
use verrazzano_operator.Prog.Rules.{
  Runs, calls, returns, Ensures, OnSuccess, Lasts, Runs-next, Runs-keep,
}
use verrazzano_operator.Prog.Listed.{Listed, ListedAll, Runs-for_each_listed}
use verrazzano_operator.Types.{SyntheticBinding}
use verrazzano_operator.Util.{contains, get_vmi_name_for_binding}
use verrazzano_operator.Environment.{shared_by, shared_vmi_variable, shared_vmi_default}
use verrazzano_operator.Managed.Shared.Deleting.{label_of}
use verrazzano_operator.Managed.Shared.Deleting.{SparedOrDeleted, SparedOrDeleted-lasts}
use verrazzano_operator.Local.ConfigMaps.{
  dashboards_for, add_dashboards, deep_equal, config_map_with, config_map_of, new_config_map,
  keep_owner, update_config_map, delete_other_config_maps, after_new_config_map, update_config_maps,
}
use verrazzano_operator.Local.ConfigMaps.Dashboards.{deep_equal_sound}

-- The name of the binding's config map.
abbrev pub dashboards_name : SyntheticBinding → String
dashboards_name b = str_append (get_vmi_name_for_binding b.name) "-dashboards"

-- The lister was asked for the binding's config map, and gave this answer.
abbrev pub Found : SyntheticBinding → Answer ConfigMap → History → Type 0
Found b answer h =
    In (event (cached_get management config_maps verrazzano_namespace (dashboards_name b)) answer) h

abbrev pub spares : SyntheticBinding → ConfigMap → Bool
spares b o = contains (dashboards_name b ∷ []) o.metadata.name

module _ (asset : String → String ⊎ Error) (b : SyntheticBinding) where
  -- The content is what newConfigMap makes, for the variable as it was read.
  abbrev pub WantedContent : Map String → History → Type 0
  WantedContent m h =
      (v : Option String) × In (event (lookup_env shared_vmi_variable) v) h
      × (add_dashboards asset [] (dashboards_for (shared_by v) b.name) ≡ inl m)

  -- The config map found is updated, and keeps its labels and owners; and listed config maps with
  -- other names are deleted. Nothing is created.
  abbrev pub WritesDashboards : History → Request → Type 0
  WritesDashboards h (lookup_env n) = n ≡ shared_vmi_variable
  WritesDashboards h (cached_get c k ns n) = (c ≡ management) × (k ≡ config_maps)
  WritesDashboards h (cached_list c k ns s) = (c ≡ management) × (k ≡ config_maps)
  WritesDashboards h (update c config_maps ns o) =
      (c ≡ management)
      × (ns ≡ verrazzano_namespace)
      × (o.metadata.name ≡ dashboards_name b)
      × ((m : Map String) × (o.content ≡ some m) × WantedContent m h)
      × ((old : ConfigMap) × (err : Option Error) × Found b (some old, err) h
          × (o.metadata.labels ≡ old.metadata.labels)
          × (o.metadata.owner_references ≡ old.metadata.owner_references))
  WritesDashboards h (delete c config_maps ns n) =
      (list : List ConfigMap) × (o : ConfigMap) × (c ≡ management)
      × Listed management config_maps verrazzano_namespace (label_of b) list h
      × In o list
      × (spares b o ≡ false)
      × (ns ≡ o.metadata.namespace)
      × (n ≡ o.metadata.name)
  WritesDashboards h _ = ⊥

  -- No config map was found, or the one found reads as the content that is wanted at every key, or
  -- it was updated with that content, without an error.
  abbrev pub DashboardsSettled : History → Type 0
  DashboardsSettled h =
      ((err : Option Error) × Found b (none, err) h)
      ⊎ ((m : Map String) × WantedContent m h
          × (((old : ConfigMap) × (err : Option Error) × (held : Map String) × Found b
                  (some old, err) h
                × (old.content ≡ some held)
                × ((key : String) → lookup key held ≡ lookup key m))
              ⊎ ((o : ConfigMap) × (o.content ≡ some m)
                  × In (event (update management config_maps verrazzano_namespace o) none) h)))

  DashboardsSettled-lasts : Lasts DashboardsSettled
  DashboardsSettled-lasts e h (inl (err, f)) = inl (err, inr f)
  DashboardsSettled-lasts e h (inr (m, (v, i, w), inl (old, err, held, f, c, s))) =
      inr (m, (v, inr i, w), inl (old, err, held, inr f, c, s))
  DashboardsSettled-lasts e h (inr (m, (v, i, w), inr (o, c, u))) =
      inr (m, (v, inr i, w), inr (o, c, inr u))

  Runs-delete_other :
      Ensures WritesDashboards
        (OnSuccess (
          ListedAll management config_maps verrazzano_namespace
            (label_of b)
            (SparedOrDeleted management config_maps (spares b))))
        (delete_other_config_maps b (dashboards_name b ∷ []))
  unfolding delete_other_config_maps for_each_listed
  Runs-delete_other h =
      Runs-for_each_listed management config_maps verrazzano_namespace (label_of b) (λ _. Unit {0})
        (SparedOrDeleted management config_maps (spares b)) (λ _ _ _. tt)
        (SparedOrDeleted-lasts management config_maps (spares b)) _
        (λ list o m h' listed _. elim (Bool-cases (spares b o)) [
          | inl e ↦ rw e (returns h' none (λ _. inl e))
          | inr e ↦ rw e (
              calls h' _ _ (list, o, refl, listed, m, e, refl, refl)
                (λ err. returns _ err (λ p. rw p (inr (inl refl)))))
        ])
        h (refl, refl) tt

  Runs-update_config_map :
      (m : Map String) (found : Option ConfigMap) (err : Option Error) (h : History)
      → WantedContent m h
      → Found b (found, err) h
      → Runs WritesDashboards
          (OnSuccess DashboardsSettled)
          ⊥
          h
          (update_config_map (config_map_with b m) found)
  unfolding update_config_map
  Runs-update_config_map m none err h w f = returns h none (λ p. inl (err, f))
  Runs-update_config_map m (some old) err h w f =
      elim (Bool-cases (deep_equal old.content (some m))) [
        | inl e ↦
            let (held, c, same) = deep_equal_sound old.content m e in
            rw e (returns h none (λ p. inr (m, w, inl (old, err, held, f, c, same))))
        | inr e ↦ rw e (
            calls h _ _ (refl, refl, refl, (m, refl, w), (old, err, f, refl, refl))
              λ x. returns _ x (λ p.
                let (v, i, made) = w in
                inr (
                  m,
                  (v, inr i, made),
                  inr (keep_owner old (config_map_with b m), refl, rw p (inl refl)),
                )))
      ]

  Runs-after_new_config_map :
      (m : Map String) (h : History)
      → WantedContent m h
      → Runs WritesDashboards
          (OnSuccess (λ h'.
            ListedAll management config_maps verrazzano_namespace
              (label_of b)
              (SparedOrDeleted management config_maps (spares b))
              h'
            × DashboardsSettled h'))
          ⊥
          h
          (after_new_config_map b (inl (config_map_with b m)))
  unfolding after_new_config_map
  Runs-after_new_config_map m h (v, i, made) =
      calls h _ _ (refl, refl)
        λ (found, err).
          Runs-next (update_config_map (config_map_with b m) found)
            (delete_other_config_maps b (dashboards_name b ∷ [])) _
            (Runs-update_config_map m found err _ (v, inr i, made) (inl refl))
            λ h' settled.
              Runs-keep DashboardsSettled-lasts
                (delete_other_config_maps b (dashboards_name b ∷ [])) h' settled
                (Runs-delete_other h')

  -- UpdateConfigMaps does not panic, and creates nothing. It updates only the binding's config map
  -- in the Verrazzano namespace, where the lister found it, to the content that newConfigMap makes,
  -- and keeps the labels and owners of the one found; it deletes only config maps of that namespace
  -- that were listed with the binding's label and have another name. Where it returns no error, all
  -- of these were deleted, and there was no such config map, or the one found reads as the content
  -- that is wanted at every key, or it was updated.
  pub update_config_maps_lem :
      Ensures WritesDashboards
        (OnSuccess (λ h.
          ListedAll management config_maps verrazzano_namespace
            (label_of b)
            (SparedOrDeleted management config_maps (spares b))
            h
          × DashboardsSettled h))
        (update_config_maps asset b)
  unfolding update_config_maps new_config_map shared_vmi_default
  update_config_maps_lem h =
      calls h _ _ refl
        λ v. go v (add_dashboards asset [] (dashboards_for (shared_by v) b.name)) refl
    where
      go :
          (v : Option String) (made : Map String ⊎ Error)
          → add_dashboards asset [] (dashboards_for (shared_by v) b.name) ≡ made
          → Runs WritesDashboards
              (OnSuccess (λ h'.
                ListedAll management config_maps verrazzano_namespace
                  (label_of b)
                  (SparedOrDeleted management config_maps (spares b))
                  h'
                × DashboardsSettled h'))
              ⊥
              (event (lookup_env shared_vmi_variable) v ∷ h)
              (after_new_config_map b (config_map_of b made))
      go v (inr err) e = returns _ (some err) (λ p. cc)
      go v (inl m) e = Runs-after_new_config_map m _ (v, inl refl, e)
