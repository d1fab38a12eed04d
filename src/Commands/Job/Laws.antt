-- ===== src/Commands/Job/Laws.antt =====
-- `ketch job deploy` of what `ketch job export` wrote.
use Prim.Native.Nat.{zero, suc}
use ketch.Base.{
  String, [], ◌∷◌, ℤ, pos, negsuc, Option, none, some, ok, message, Error, concat, ◌≡◌, refl, ap,
  sym, ◌∙◌, arith, eq_iff,
}
use ketch.Jobs.{Job, JobSpec}
use ketch.Commands.Job.{
  text_or, number_or, set_job_spec_defaults, validate_job_spec, JobClient, operation_none,
  job_deploy, job_export, deploy_spec,
}

text_or_idempotent :
    (default text : String) → text_or default (text_or default text) ≡ text_or default text
text_or_idempotent default text = ground (arith, eq_iff text "", eq_iff default "")

number_or_idempotent :
    (default n : ℤ) → number_or default (number_or default n) ≡ number_or default n
number_or_idempotent (pos zero) (pos zero) = refl
number_or_idempotent (pos (suc d)) (pos zero) = refl
number_or_idempotent (negsuc d) (pos zero) = refl
number_or_idempotent default (pos (suc n)) = refl
number_or_idempotent default (negsuc n) = refl

set_job_spec_defaults_idempotent :
    (spec : JobSpec)
    → set_job_spec_defaults (set_job_spec_defaults spec) ≡ set_job_spec_defaults spec
unfolding set_job_spec_defaults
set_job_spec_defaults_idempotent spec =
    rw
      (
        text_or_idempotent "v1" spec.version,
        text_or_idempotent "Never" spec.policy.restart_policy,
        number_or_idempotent (pos 1) spec.parallelism,
        number_or_idempotent (number_or (pos 1) spec.parallelism) spec.completions,
      )
      refl

validate_job_spec-set_job_spec_defaults :
    (spec : JobSpec) → validate_job_spec (set_job_spec_defaults spec) ≡ validate_job_spec spec
unfolding validate_job_spec set_job_spec_defaults
validate_job_spec-set_job_spec_defaults spec = refl

deploy_spec_unchanged :
    (client : JobClient) (spec : JobSpec)
    → validate_job_spec spec ≡ none
    → client.create_or_update spec.name spec ≡ ok operation_none
    → deploy_spec client spec
      ≡ some (message (concat ("job \"" ∷ spec.name ∷ "\" already exists and is unchanged" ∷ [])))
unfolding deploy_spec
deploy_spec_unchanged client spec valid same = rw (deploy_spec, valid, same) refl

-- When `ketch job export` of a job whose spec is one that `ketch job deploy` stored writes a file, and the
-- file is decoded as it was written, `ketch job deploy` of that file asks CreateOrUpdate for the same spec
-- again, and when the answer is that nothing changed, its error says so.
pub job_deploy-job_export :
    (client : JobClient) (filename text : String) (spec : JobSpec) (job : Job)
    (write : JobSpec → Option Error)
    → job.spec ≡ set_job_spec_defaults spec
    → validate_job_spec spec ≡ none
    → client.read_file filename ≡ ok text
    → client.unmarshal text ≡ ok job.spec
    → client.create_or_update job.spec.name job.spec ≡ ok operation_none
    → (job_export (ok job) write ≡ write (set_job_spec_defaults spec))
      × (job_deploy client filename
          ≡ some (
              message
                (concat ("job \"" ∷ job.spec.name ∷ "\" already exists and is unchanged" ∷ []))))
unfolding job_export job_deploy deploy_spec
job_deploy-job_export client filename text spec job write h valid r d same =
    let again = ap set_job_spec_defaults h ∙ set_job_spec_defaults_idempotent spec ∙ sym h in
    let fine = ap validate_job_spec h ∙ validate_job_spec-set_job_spec_defaults spec ∙ valid in
    (
      ap write h,
      rw (job_deploy, r, d)
          (ap (deploy_spec client) again ∙ deploy_spec_unchanged client job.spec fine same),
    )
