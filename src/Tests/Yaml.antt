-- ===== src/Tests/Yaml.antt =====
-- An app that is exported as an application.yaml.
use ketch.Base.{[], ◌∷◌, some, pos, ok, err, message, ◌≡◌, refl, ◌==◌, if◌then◌else◌}
use ketch.App.{AppDeploymentSpec}
use ketch.Deploy.Getters.{make_environments}
use ketch.Deploy.Flags.{ChangeSet}
use ketch.Deploy.Yaml.{
  get_change_set_from_yaml, get_latest_deployment, get_application_from_ketch_app,
}
use ketch.Deploy.Yaml.Latest.{IsLatest, get_latest_deployment-IsLatest}
use ketch.Deploy.Yaml.RoundTrip.{IsExportable, AsksAgain, get_change_set_from_yaml-export}
use ketch.Tests.Data.{process, old, new, canary_app}
use ketch.Tests.Deploy.{options}

exportable : IsExportable canary_app
unfolding get_latest_deployment make_environments
exportable = record {
  named = refl;
  latest = new;
  is_latest = refl;
  process = process "web" (some (pos 1));
  others = [];
  processes = refl;
  envs = [];
  readable = refl;
}

get_change_set_from_yaml-export_example :
    (cs : ChangeSet) × AsksAgain canary_app new cs
    × (get_change_set_from_yaml options (get_application_from_ketch_app canary_app) ≡ (
        if options.app_source_path == ""
        then err (message "running defined processes require a sourcePath")
        else ok cs))
unfolding exportable
get_change_set_from_yaml-export_example =
    get_change_set_from_yaml-export canary_app exportable options

get_latest_deployment-IsLatest_example :
    (d : AppDeploymentSpec) × (get_latest_deployment (old ∷ new ∷ []) ≡ some d)
    × IsLatest d old (new ∷ [])
get_latest_deployment-IsLatest_example = get_latest_deployment-IsLatest old (new ∷ [])
