-- ===== src/App/Labels/Laws.antt =====
-- Labels that are added again at every reconcile do not pile up.
use mathlib.Core.List.{append-nil}
use ketch.Base.{
  String, true, List, [], ◌∷◌, ◌++◌, ℤ, Dict, delete, ◌≡◌, refl, ap, sym, ◌∙◌, arith, eq_iff, inl,
  inr, ◌⊎◌, Bool-cases,
}
use ketch.App.{Target, MetadataItem, ProcessSpec, AppDeploymentSpec, App}
use ketch.App.Labels.{
  same_target, clean_labels, process_labels, deployment_labels, add_label,
  update_app_labels_for_ingress, pod_target,
}

delete-delete : (k : String) (m : Dict String) → delete k (delete k m) ≡ delete k m
unfolding delete
delete-delete k [] = refl
delete-delete k ((j, v) ∷ m) = ground (arith, delete-delete k m)

List-cases : {A : Type 0} (xs : List A) → (xs ≡ []) ⊎ ((y : A) × (ys : List A) × (xs ≡ y ∷ ys))
List-cases [] = inl refl
List-cases (x ∷ xs) = inr (x, xs, refl)

same_target_refl : (t : Target) → same_target t t ≡ true
same_target_refl t = ground (arith, eq_iff t.api_version t.api_version, eq_iff t.kind t.kind)

module _ (key value : String) (target : Target) where
  abbrev label : Dict String
  label = (key, value) ∷ []

  -- An item without the key is kept.
  clean-kept :
      (item : MetadataItem) (entry : String × String) (entries : Dict String)
      (rest : List MetadataItem)
      → same_target item.target target ≡ true
      → delete key (entry ∷ entries) ≡ entry ∷ entries
      → clean_labels label target (record item { apply = entry ∷ entries } ∷ rest)
        ≡ record item { apply = entry ∷ entries } ∷ clean_labels label target rest
  unfolding clean_labels
  clean-kept item entry entries rest same left = rw (same, clean_labels, left) refl

  clean-clean :
      (items : List MetadataItem)
      → clean_labels label target (clean_labels label target items)
        ≡ clean_labels label target items
  unfolding clean_labels
  clean-clean [] = refl
  clean-clean (item ∷ items) = elim (Bool-cases (same_target item.target target)) [
    | inr other ↦ rw (other, clean_labels, other) (ap (◌∷◌ item) (clean-clean items))
    | inl same ↦ elim (List-cases (delete key item.apply)) [
      | inl gone ↦ rw (same, clean_labels, gone) (clean-clean items)
      | inr (entry, entries, left) ↦
          rw (same, clean_labels, left)
            (clean-kept item entry entries (clean_labels label target items) same
                (ap (delete key) (sym left) ∙ delete-delete key item.apply ∙ left)
              ∙ ap (◌∷◌ (record item { apply = entry ∷ entries })) (clean-clean items))
    ]
  ]

  clean-append :
      (xs ys : List MetadataItem)
      → clean_labels label target (xs ++ ys)
        ≡ clean_labels label target xs ++ clean_labels label target ys
  unfolding clean_labels
  clean-append [] ys = refl
  clean-append (x ∷ xs) ys = ground (arith, clean-append xs ys)

  clean-process_labels :
      (version : ℤ) (ps : List ProcessSpec)
      → clean_labels label target (process_labels label target version ps) ≡ []
  unfolding clean_labels process_labels delete
  clean-process_labels version [] = refl
  clean-process_labels version (p ∷ ps) =
      ground (arith, same_target_refl target, eq_iff key key, clean-process_labels version ps)

  clean-deployment_labels :
      (ds : List AppDeploymentSpec)
      → clean_labels label target (deployment_labels label target ds) ≡ []
  unfolding deployment_labels clean_labels
  clean-deployment_labels [] = refl
  clean-deployment_labels (d ∷ ds) =
      clean-append (process_labels label target d.version d.processes)
        (deployment_labels label target ds)
      ∙ ground (arith, clean-process_labels d.version d.processes, clean-deployment_labels ds)

  add_label-add_label :
      (app : App) → add_label label target (add_label label target app) ≡ add_label label target app
  unfolding add_label
  add_label-add_label app =
      ap
        (λ items. record app {
          spec = record app.spec {
            labels = items ++ deployment_labels label target app.spec.deployments;
          };
        })
        (clean-append (clean_labels label target app.spec.labels)
            (deployment_labels label target app.spec.deployments)
          ∙ rw (clean-clean app.spec.labels, clean-deployment_labels app.spec.deployments)
              (append-nil (clean_labels label target app.spec.labels)))

-- UpdateAppLabelsForIngress once more changes nothing, whatever labels the app had before.
pub update_app_labels_for_ingress_idempotent :
    (app : App)
    → update_app_labels_for_ingress (update_app_labels_for_ingress app)
      ≡ update_app_labels_for_ingress app
unfolding update_app_labels_for_ingress add_label
update_app_labels_for_ingress_idempotent app =
    add_label-add_label "sidecar.istio.io/inject" _ pod_target app
