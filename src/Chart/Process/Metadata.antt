-- ===== src/Chart/Process/Metadata.antt =====
-- Labels and annotations change nothing else of a process.
use ketch.Base.{
  String, List, [], ◌∷◌, ℤ, Dict, ok, ◌≡◌, refl, ap, ◌∙◌, arith, inl, inr, Bool-cases, Result-cases,
}
use ketch.App.{Target, MetadataItem}
use ketch.Chart.Process.{Process}
use ketch.Chart.Process.Labels.{
  set_label, set_annotation, put_all, put_items, can_be_applied, validate_keys,
}

-- The processes differ at most in their labels and annotations.
abbrev pub OnlyMetadata : Process → Process → Type 0
OnlyMetadata p q = q ≡ record p {
  service_metadata = q.service_metadata;
  deployment_metadata = q.deployment_metadata;
  pod_metadata = q.pod_metadata;
}

pub OnlyMetadata-trans : (p q r : Process) → OnlyMetadata p q → OnlyMetadata q r → OnlyMetadata p r
OnlyMetadata-trans p q r h k =
    k
    ∙ ap {A = Process} {B = Process}
        (λ x. record x {
          service_metadata = r.service_metadata;
          deployment_metadata = r.deployment_metadata;
          pod_metadata = r.pod_metadata;
        })
        h

pub set_label-OnlyMetadata :
    (target : Target) (key value : String) (p : Process)
    → OnlyMetadata p (set_label target key value p)
unfolding set_label
set_label-OnlyMetadata target key value p = ground arith

pub set_annotation-OnlyMetadata :
    (target : Target) (key value : String) (p : Process)
    → OnlyMetadata p (set_annotation target key value p)
unfolding set_annotation
set_annotation-OnlyMetadata target key value p = ground arith

module _ (put : Target → String → String → Process → Process)
    (keeps : (t : Target) (k v : String) (p : Process) → OnlyMetadata p (put t k v p)) where
  put_all-OnlyMetadata :
      (target : Target) (apply : Dict String) (p : Process)
      → OnlyMetadata p (put_all put target apply p)
  unfolding put_all
  put_all-OnlyMetadata target [] p = refl
  put_all-OnlyMetadata target ((key, value) ∷ apply) p =
      OnlyMetadata-trans p (put target key value p) _ (keeps target key value p)
        (put_all-OnlyMetadata target apply (put target key value p))

  pub put_items-OnlyMetadata :
      (items : List MetadataItem) (version : ℤ) (p : Process) {q : Process}
      → put_items put items version p ≡ ok q
      → OnlyMetadata p q
  unfolding put_items
  put_items-OnlyMetadata [] version p h = ground (arith, h)
  put_items-OnlyMetadata (item ∷ items) version p h =
      elim (Bool-cases (can_be_applied item p.name version)) [
        | inr other ↦ put_items-OnlyMetadata items version p (rw (other, put_items) at h)
        | inl applies ↦ elim (Result-cases (validate_keys item.apply)) [
          | inr (e, bad) ↦ ground (arith, h, applies, bad)
          | inl (u, good) ↦
              OnlyMetadata-trans p (put_all put item.target item.apply p) _
                (put_all-OnlyMetadata item.target item.apply p)
                (put_items-OnlyMetadata items version (put_all put item.target item.apply p)
                  (ground (arith, h, applies, good)))
        ]
      ]
