-- ===== src/Deploy/Update/Steps.antt =====
-- What each block of `getUpdatedApp` for a flag leaves.
use ketch.Base.{
  Bool, true, List, [], Option, none, some, pos, ok, Result-cases, Option-cases, inl, inr, ◌≡◌,
  refl, arith,
}
use ketch.App.{Env, AppSpec}
use ketch.Deploy.{assign, is_missing, is_valid, status_of}
use ketch.Deploy.Flags.{ChangeSet}
use ketch.Deploy.Getters.{
  get_description, get_namespace, get_environments, make_environments, get_docker_registry_secret,
  get_fs_group, get_run_as_user,
}
use ketch.Deploy.Update.{Draft, store, context_of}

abbrev pub or_default {ℓ} : {A : Type ℓ} → A → Option A → A
or_default a none = a
or_default a (some b) = b

-- The variables of an app after a deployment: those of the flags if any were given.
abbrev pub EnvsAfter : ChangeSet → List Env → List Env → Type 0
EnvsAfter cs before after = elim cs.envs [
  | none ↦ after ≡ before
  | some texts ↦ make_environments texts ≡ ok after
]

-- The spec with every flag that was given stored, and with a security context in any case: without
-- their flags the user and the group are 0.
abbrev pub specified : ChangeSet → List Env → AppSpec → AppSpec
specified cs envs spec = record spec {
  namespace = or_default spec.namespace cs.namespace;
  description = or_default spec.description cs.description;
  env = envs;
  security_context = some (record {
    run_as_user = some (or_default (pos 0) cs.run_as_user);
    fs_group = some (or_default (pos 0) cs.fs_group);
  });
  docker_registry = record {
    secret_name = or_default spec.docker_registry.secret_name cs.docker_registry_secret;
  };
}

abbrev pub was_set {ℓ} : {A : Type ℓ} → Bool → Option A → Bool
was_set changed none = changed
was_set changed (some a) = true

module _ (cs : ChangeSet) (d d' : Draft) where
  pub namespace_step :
      assign "" (get_namespace cs) (λ n. store (λ spec. record spec { namespace = n })) d ≡ ok d'
      → d' ≡ record {
        app = record d.app {
          spec = record d.app.spec { namespace = or_default d.app.spec.namespace cs.namespace };
        };
        changed = was_set d.changed cs.namespace;
      }
  unfolding assign get_namespace is_missing is_valid status_of
  namespace_step h = ground (arith, h)

  pub description_step :
      assign "" (get_description cs) (λ t. store (λ spec. record spec { description = t })) d
        ≡ ok d'
      → d' ≡ record {
        app = record d.app {
          spec = record d.app.spec {
            description = or_default d.app.spec.description cs.description;
          };
        };
        changed = was_set d.changed cs.description;
      }
  unfolding assign get_description is_missing is_valid status_of
  description_step h = ground (arith, h)

  pub secret_step :
      assign ""
          (get_docker_registry_secret cs)
          (λ t. store (λ spec. record spec { docker_registry = record { secret_name = t } }))
          d
        ≡ ok d'
      → d' ≡ record {
        app = record d.app {
          spec = record d.app.spec {
            docker_registry = record {
              secret_name =
                  or_default d.app.spec.docker_registry.secret_name cs.docker_registry_secret;
            };
          };
        };
        changed = was_set d.changed cs.docker_registry_secret;
      }
  unfolding assign get_docker_registry_secret is_missing is_valid status_of
  secret_step h = ground (arith, h)

  pub envs_step :
      assign [] (get_environments cs) (λ es. store (λ spec. record spec { env = es })) d ≡ ok d'
      → (es : List Env) × EnvsAfter cs d.app.spec.env es
        × (d' ≡ record d {
          app = record d.app { spec = record d.app.spec { env = es } };
          changed = was_set d.changed cs.envs;
        })
  unfolding assign get_environments is_missing is_valid status_of
  envs_step h = elim (Option-cases cs.envs) [
    | inl e ↦ (d.app.spec.env, rw e refl, rw e (ground (arith, h, e)))
    | inr (texts, e) ↦ elim (Result-cases (make_environments texts)) [
      | inl (es, k) ↦ (es, rw e k, rw e (ground (arith, h, e, k)))
      | inr (x, k) ↦ absurd (ground (arith, h, e, k))
    ]
  ]

  pub user_step :
      assign
          (pos 0)
          (get_run_as_user cs)
          (λ u. store (λ spec. record spec {
            security_context = some (record (context_of spec) { run_as_user = some u });
          }))
          d
        ≡ ok d'
      → d'
        ≡ store
            (λ spec. record spec {
              security_context = some (record (context_of spec) {
                run_as_user = some (or_default (pos 0) cs.run_as_user);
              });
            })
            d
  unfolding assign get_run_as_user is_missing is_valid status_of
  user_step h = ground (arith, h)

  pub group_step :
      assign
          (pos 0)
          (get_fs_group cs)
          (λ g. store (λ spec. record spec {
            security_context = some (record (context_of spec) { fs_group = some g });
          }))
          d
        ≡ ok d'
      → d'
        ≡ store
            (λ spec. record spec {
              security_context =
                  some
                    (record (context_of spec) { fs_group = some (or_default (pos 0) cs.fs_group) });
            })
            d
  unfolding assign get_fs_group is_missing is_valid status_of
  group_step h = ground (arith, h)
