-- ===== src/App/Labels.antt =====
-- `AddLabel` of internal/api/v1beta1/app_types.go and `UpdateAppLabelsForIngress` of
-- internal/controllers/app_controller.go. The items that one call adds have one map in common; as they have
-- one target too, a later call treats them alike, and here each has a copy.
pub mod Laws
use ketch.Base.{
  String, Bool, true, false, List, [], ◌∷◌, ◌++◌, ℤ, Dict, delete, ◌==◌, ◌&&◌, if◌then◌else◌,
}
use ketch.App.{Target, MetadataItem, ProcessSpec, AppDeploymentSpec, App}

abbrev pub same_target : Target → Target → Bool
same_target a b = a.api_version == b.api_version && a.kind == b.kind

-- `delete` for every key of the label.
abbrev pub delete_keys : Dict String → Dict String → Dict String
delete_keys [] apply = apply
delete_keys ((key, value) ∷ label) apply = delete_keys label (delete key apply)

-- The loop that cleans up, which goes backwards over the items.
unfoldable pub clean_labels : Dict String → Target → List MetadataItem → List MetadataItem
unfolding delete
clean_labels label target [] = []
clean_labels label target (item ∷ items) =
    let rest = clean_labels label target items in
    if same_target item.target target
    then (elim (delete_keys label item.apply) [
      | [] ↦ rest
      | entry ∷ entries ↦ record item { apply = entry ∷ entries } ∷ rest
    ])
    else item ∷ rest

unfoldable pub process_labels : Dict String → Target → ℤ → List ProcessSpec → List MetadataItem
process_labels label target version [] = []
process_labels label target version (p ∷ ps) =
    record { target = target; apply = label; deployment_version = version; process_name = p.name }
    ∷ process_labels label target version ps

unfoldable pub deployment_labels : Dict String → Target → List AppDeploymentSpec → List MetadataItem
unfolding process_labels
deployment_labels label target [] = []
deployment_labels label target (d ∷ ds) =
    process_labels label target d.version d.processes ++ deployment_labels label target ds

unfoldable pub add_label : Dict String → Target → App → App
unfolding clean_labels deployment_labels
add_label label target app = record app {
  spec = record app.spec {
    labels =
        clean_labels label target app.spec.labels
        ++ deployment_labels label target app.spec.deployments;
  };
}

abbrev pub pod_target : Target
pod_target = record { api_version = "v1"; kind = "Pod" }

-- `UpdateAppLabelsForIngress`
unfoldable pub update_app_labels_for_ingress : App → App
unfolding add_label
update_app_labels_for_ingress app =
    add_label
      ((
        "sidecar.istio.io/inject",
        if app.spec.ingress.controller.ingress_type == "istio" then "true" else "false",
      )
        ∷ [])
      pod_target app
