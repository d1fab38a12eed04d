-- ===== src/Deploy/Update.antt =====
-- `getUpdatedApp` of internal/deploy/deploy.go: the function that it retries on a conflict, from what the
-- client gets to what it writes.
pub mod Steps
pub mod Stored
use ketch.Base.{
  Bool, true, false, [], none, some, pos, Result, ok, err, not_found, ◌>>=◌, ◌==◌, if◌then◌else◌,
}
use ketch.App.{PodSecurityContext, AppSpec, App}
use ketch.Deploy.{System, assign}
use ketch.Deploy.Flags.{ChangeSet}
use ketch.Deploy.Getters.{
  get_description, get_namespace, get_environments, get_docker_registry_secret, get_builder,
  get_fs_group, get_run_as_user, get_build_packs,
}
use ketch.Deploy.Validate.{validate_deploy, validate_source_deploy, validate_create_app}

-- The zero value of an App.
abbrev pub empty_app : App
empty_app = record {
  name = "";
  annotations = [];
  finalizers = [];
  deletion_timestamp = none;
  spec = record {
    version = none;
    id = "";
    description = "";
    canary = record {
      steps = pos 0;
      step_weight = 0;
      step_time_interval = pos 0;
      next_scheduled_time = none;
      current_step = pos 0;
      active = false;
      started = none;
      target = none;
    };
    deployments = [];
    deployments_count = pos 0;
    env = [];
    ingress = record {
      generate_default_cname = false;
      cnames = [];
      controller = record {
        class_name = "";
        service_endpoint = "";
        ingress_type = "";
        cluster_issuer = "";
      };
    };
    docker_registry = record { secret_name = "" };
    builder = "";
    build_packs = [];
    labels = [];
    annotations = [];
    namespace = "";
    service_account_name = "";
    security_context = none;
    extensions = [];
    volume_claim_templates = [];
    type = none;
  };
  status = record { conditions = []; extensions_statuses = [] };
}

-- What the updater that `getAppWithUpdater` returns asks of the client.
pub data Write : Type 0 where
  create update keep : App → Write

-- The app, and whether it was changed.
pub record Draft : Type 0 where
  pub app : App
  pub changed : Bool

abbrev pub store : (AppSpec → AppSpec) → Draft → Draft
store f draft = record { app = record draft.app { spec = f draft.app.spec }; changed = true }

-- The security context, an empty one if there is none.
abbrev pub context_of : AppSpec → PodSecurityContext
context_of spec = elim spec.security_context [
  | none ↦ record { run_as_user = none; fs_group = none }
  | some context ↦ context
]

-- The block for an app that is built from source.
unfoldable pub store_source : System → ChangeSet → Draft → Result Draft
unfolding validate_source_deploy get_builder get_build_packs assign
store_source system cs draft = elim cs.source_path [
  | none ↦ ok draft
  | some path ↦ validate_source_deploy system cs >>= λ valid.
      let (builder, cs') = get_builder draft.app.spec cs in
      let built =
        if builder == draft.app.spec.builder
        then draft
        else store (λ spec. record spec { builder = builder }) draft in
      assign [] (get_build_packs cs') (λ packs. store (λ spec. record spec { build_packs = packs }))
        built
]

-- The blocks after the validation.
unfoldable pub store_flags : ChangeSet → Draft → Result Draft
unfolding assign get_namespace get_description get_environments get_run_as_user get_fs_group
    get_docker_registry_secret
store_flags cs draft =
    assign "" (get_namespace cs) (λ n. store (λ spec. record spec { namespace = n })) draft
    >>= λ d1.
        assign "" (get_description cs) (λ t. store (λ spec. record spec { description = t })) d1
        >>= λ d2.
            assign [] (get_environments cs) (λ es. store (λ spec. record spec { env = es })) d2
            >>= λ d3.
                assign (pos 0) (get_run_as_user cs)
                  (λ u. store (λ spec. record spec {
                    security_context = some (record (context_of spec) { run_as_user = some u });
                  }))
                  d3
                >>= λ d4.
                    assign (pos 0) (get_fs_group cs)
                      (λ g. store (λ spec. record spec {
                        security_context = some (record (context_of spec) { fs_group = some g });
                      }))
                      d4
                    >>= λ d5.
                        assign "" (get_docker_registry_secret cs)
                          (λ t.
                            store (λ spec. record spec {
                              docker_registry = record { secret_name = t };
                            }))
                          d5

-- The fields that the updater of a new app sets.
unfoldable pub created : ChangeSet → App → App
created cs app = record app {
  name = cs.app_name;
  spec = record app.spec {
    deployments = [];
    ingress = record empty_app.spec.ingress {
      generate_default_cname = elim cs.cname [ none ↦ true | some cnames ↦ false ];
      cnames = elim cs.cname [ none ↦ [] | some cnames ↦ cnames ];
    };
  };
}

-- The two updaters.
unfoldable pub write_of : ChangeSet → Bool → Draft → Write
unfolding created
write_of cs is_new draft =
    if is_new
    then create (created cs draft.app)
    else if draft.changed
    then update draft.app
    else keep draft.app

unfoldable pub prepare : System → ChangeSet → Bool → App → Result Write
unfolding store_source validate_deploy store_flags write_of
prepare system cs is_new app =
    store_source system cs (record { app = app; changed = false }) >>= λ draft.
    validate_deploy system cs draft.app >>= λ valid.
    store_flags cs draft >>= λ done. ok (write_of cs is_new done)

-- `getUpdatedApp`, with what the client's Get returned.
unfoldable pub get_updated_app : System → ChangeSet → Result App → Result Write
unfolding validate_create_app prepare
get_updated_app system cs (ok app) = prepare system cs false app
get_updated_app system cs (err not_found) =
    validate_create_app cs.app_name cs >>= λ valid. prepare system cs true empty_app
get_updated_app system cs (err e) = err e
