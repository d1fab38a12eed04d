-- ===== src/Deploy/Update/Stored.antt =====
-- What `getUpdatedApp` stores in the App.
use ketch.Base.{
  sym, subst, true, false, List, Option, none, some, pos, ok, returned, ◌≡◌, refl, ap, ◌∙◌, arith,
}
use ketch.App.{Env, App}
use ketch.Deploy.{System}
use ketch.Deploy.Flags.{ChangeSet}
use ketch.Deploy.Validate.{validate_deploy}
use ketch.Deploy.Validate.Accepts.{is_ok, accepts, validate_deploy-accepts}
use ketch.Deploy.Update.Steps.{
  or_default, EnvsAfter, specified, was_set, namespace_step, description_step, secret_step,
  envs_step, user_step, group_step,
}
use ketch.Deploy.Update.{
  get_updated_app, prepare, store_source, write_of, Draft, Write, update, store, context_of,
  store_flags,
}

was_set-true : {A : Type 0} (o : Option A) → was_set true o ≡ true
was_set-true none = refl
was_set-true (some a) = refl

-- The steps in a row.
chain :
    (cs : ChangeSet) (es : List Env) (d d1 d2 d3 d4 d5 d' : Draft)
    → d1 ≡ record {
      app = record d.app {
        spec = record d.app.spec { namespace = or_default d.app.spec.namespace cs.namespace };
      };
      changed = was_set d.changed cs.namespace;
    }
    → d2 ≡ record {
      app = record d1.app {
        spec = record d1.app.spec {
          description = or_default d1.app.spec.description cs.description;
        };
      };
      changed = was_set d1.changed cs.description;
    }
    → d3 ≡ record {
      app = record d2.app { spec = record d2.app.spec { env = es } };
      changed = was_set d2.changed cs.envs;
    }
    → d4
      ≡ store
          (λ spec. record spec {
            security_context = some (record (context_of spec) {
              run_as_user = some (or_default (pos 0) cs.run_as_user);
            });
          })
          d3
    → d5
      ≡ store
          (λ spec. record spec {
            security_context =
                some
                  (record (context_of spec) { fs_group = some (or_default (pos 0) cs.fs_group) });
          })
          d4
    → d' ≡ record {
      app = record d5.app {
        spec = record d5.app.spec {
          docker_registry = record {
            secret_name =
                or_default d5.app.spec.docker_registry.secret_name cs.docker_registry_secret;
          };
        };
      };
      changed = was_set d5.changed cs.docker_registry_secret;
    }
    → (d2.app.spec.env ≡ d.app.spec.env)
      × (d' ≡ record { app = record d.app { spec = specified cs es d.app.spec }; changed = true })
chain cs es d d1 d2 d3 d4 d5 d' e1 e2 e3 e4 e5 e6 =
    (rw (e2, e1) refl, rw (e6, e5, e4, e3, e2, e1, was_set-true cs.docker_registry_secret) refl)

-- What the blocks for the flags leave when all of them succeed.
pub store_flags-specified :
    (cs : ChangeSet) (d d' : Draft)
    → store_flags cs d ≡ ok d'
    → (es : List Env) × EnvsAfter cs d.app.spec.env es
      × (d' ≡ record { app = record d.app { spec = specified cs es d.app.spec }; changed = true })
unfolding store_flags
store_flags-specified cs d d' h =
    let (d1, a1, h1) = returned _ _ h in
    let (d2, a2, h2) = returned _ _ h1 in
    let (d3, a3, h3) = returned _ _ h2 in
    let (d4, a4, h4) = returned _ _ h3 in
    let (d5, a5, h5) = returned _ _ h4 in
    let e1 = namespace_step cs d d1 a1 in
    let e2 = description_step cs d1 d2 a2 in
    let (es, after, e3) = envs_step cs d2 d3 a3 in
    let e4 = user_step cs d3 d4 a4 in
    let e5 = group_step cs d4 d5 a5 in
    let e6 = secret_step cs d5 d' h5 in
    let (same, all) = chain cs es d d1 d2 d3 d4 d5 d' e1 e2 e3 e4 e5 e6 in
    (es, subst (λ before. EnvsAfter cs before es) same after, all)

module _ (system : System) (cs : ChangeSet) (image_only : cs.source_path ≡ none) where
  -- An existing app that is deployed from an image is written back with the flags stored.
  pub get_updated_app-specified :
      (app : App) (w : Write)
      → get_updated_app system cs (ok app) ≡ ok w
      → (es : List Env) × EnvsAfter cs app.spec.env es
        × (w ≡ update (record app { spec = specified cs es app.spec }))
        × (accepts system cs app.spec.deployments ≡ true)
  unfolding get_updated_app prepare store_source write_of
  get_updated_app-specified app w h =
      let (draft, a, h1) =
        returned _ (store_source system cs (record { app = app; changed = false })) h in
      let (valid, b, h2) = returned _ (validate_deploy system cs draft.app) h1 in
      let (done, c, h3) = returned _ (store_flags cs draft) h2 in
      let (es, after, stored) = store_flags-specified cs draft done c in
      let same : record { app = app; changed = false } ≡ draft = ground (arith, a, image_only) in
      let w_is : write_of cs false done ≡ w = cc in
      let written : w ≡ update (record draft.app { spec = specified cs es draft.app.spec }) =
        sym w_is ∙ ap (write_of cs false) stored in
      let fine : accepts system cs draft.app.spec.deployments ≡ true =
        sym (validate_deploy-accepts system cs draft.app) ∙ ap is_ok b in
      subst
        (λ d.
          (es : List Env) × EnvsAfter cs d.app.spec.env es
          × (w ≡ update (record d.app { spec = specified cs es d.app.spec }))
          × (accepts system cs d.app.spec.deployments ≡ true))
        (sym same) (es, after, written, fine)
