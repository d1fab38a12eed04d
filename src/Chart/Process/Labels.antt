-- ===== src/Chart/Process/Labels.antt =====
-- The labels and annotations of internal/chart/process.go, and MetadataItem.Validate of
-- internal/api/v1beta1/app_types.go. A map of labels that was not made is the empty one.
use Prim.Native.Char.{Char, code}
use ketch.Base.{
  ℕ, zero, suc, String, Bool, true, false, List, [], ◌∷◌, ℤ, pos, ltb_ℤ, beq_ℤ, leb, beq, Dict,
  insert, Result, ok, err, message, ◌==◌, ◌&&◌, ◌||◌, not, all_chars, if◌then◌else◌,
}
use ketch.App.{Target, MetadataItem, is_deployment, is_service, is_pod}
use ketch.Chart.Process.{Process, ProcessOption}

abbrev is_alphanumeric : Char → Bool
is_alphanumeric c =
    let n = code c in (leb 97 n && leb n 122) || (leb 65 n && leb n 90) || (leb 48 n && leb n 57)

abbrev is_key_char : Char → Bool
is_key_char c = is_alphanumeric c || beq (code c) 45 || beq (code c) 95 || beq (code c) 46

abbrev count_chars : String → ℕ
count_chars String.[] = 0
count_chars (String.◌∷◌ c s) = suc (count_chars s)

-- [A-Z0-9a-z][A-Z0-9a-z-_\.]{0,63}
unfoldable pub is_key_name : String → Bool
unfolding all_chars
is_key_name String.[] = false
is_key_name (String.◌∷◌ c s) =
    is_alphanumeric c && leb (count_chars s) 63 && all_chars is_key_char s

-- .{0,n}\/ and a name
unfoldable pub is_prefixed : ℕ → String → Bool
unfolding is_key_name
is_prefixed n String.[] = false
is_prefixed zero (String.◌∷◌ c s) = beq (code c) 47 && is_key_name s
is_prefixed (suc n) (String.◌∷◌ c s) =
    (beq (code c) 47 && is_key_name s) || (not (beq (code c) 10) && is_prefixed n s)

-- ^([A-Za-z].{0,252}\/)?[A-Z0-9a-z][A-Z0-9a-z-_\.]{0,63}$
unfoldable pub is_metadata_key : String → Bool
unfolding is_prefixed
is_metadata_key String.[] = false
is_metadata_key (String.◌∷◌ c s) =
    is_key_name (String.◌∷◌ c s)
    || (((leb 97 (code c) && leb (code c) 122) || (leb 65 (code c) && leb (code c) 90))
        && is_prefixed 252 s)

-- `Validate`
unfoldable pub validate_keys : Dict String → Result (Unit {0})
unfolding is_metadata_key
validate_keys [] = ok tt
validate_keys ((key, value) ∷ apply) =
    if is_metadata_key key then validate_keys apply else err (message "malformed metadata key")

-- `canBeApplied`
unfoldable pub can_be_applied : MetadataItem → String → ℤ → Bool
can_be_applied item process_name version =
    if ltb_ℤ (pos 0) item.deployment_version && not (beq_ℤ version item.deployment_version)
    then false
    else not (not (item.process_name == "") && not (process_name == item.process_name))

-- One round of the inner loop of `withLabels`.
unfoldable pub set_label : Target → String → String → Process → Process
unfolding is_deployment is_service is_pod insert
set_label target key value p =
    if is_deployment target
    then record p {
      deployment_metadata = record p.deployment_metadata {
        labels = insert key value p.deployment_metadata.labels;
      };
    }
    else if is_service target
    then record p {
      service_metadata = record p.service_metadata {
        labels = insert key value p.service_metadata.labels;
      };
    }
    else if is_pod target
    then record p {
      pod_metadata = record p.pod_metadata { labels = insert key value p.pod_metadata.labels };
    }
    else p

-- One round of the inner loop of `withAnnotations`.
unfoldable pub set_annotation : Target → String → String → Process → Process
unfolding is_deployment is_service is_pod insert
set_annotation target key value p =
    if is_deployment target
    then record p {
      deployment_metadata = record p.deployment_metadata {
        annotations = insert key value p.deployment_metadata.annotations;
      };
    }
    else if is_service target
    then record p {
      service_metadata = record p.service_metadata {
        annotations = insert key value p.service_metadata.annotations;
      };
    }
    else if is_pod target
    then record p {
      pod_metadata = record p.pod_metadata {
        annotations = insert key value p.pod_metadata.annotations;
      };
    }
    else p

-- The two loops of `withLabels` and of `withAnnotations`, which set entries by `put`.
module _ (put : Target → String → String → Process → Process) where
  unfoldable pub put_all : Target → Dict String → Process → Process
  put_all target [] p = p
  put_all target ((key, value) ∷ apply) p = put_all target apply (put target key value p)

  unfoldable pub put_items : List MetadataItem → ℤ → ProcessOption
  unfolding put_all can_be_applied validate_keys
  put_items [] version p = ok p
  put_items (item ∷ items) version p = elim (can_be_applied item p.name version) [
    | false ↦ put_items items version p
    | true ↦ elim (validate_keys item.apply) [
      | err e ↦ err e
      | ok _ ↦ put_items items version (put_all item.target item.apply p)
    ]
  ]

abbrev pub with_labels : List MetadataItem → ℤ → ProcessOption
with_labels = put_items set_label

abbrev pub with_annotations : List MetadataItem → ℤ → ProcessOption
with_annotations = put_items set_annotation
