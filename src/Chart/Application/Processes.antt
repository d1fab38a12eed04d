-- ===== src/Chart/Application/Processes.antt =====
-- The processes that newProcess makes with the options of New.
use ketch.Base.{
  Option, none, some, Bool, true, List, [], ◌∷◌, ◌++◌, ℤ, pos, Result, ok, err, message, returned,
  ◌>>=◌, not, if◌then◌else◌, ◌≡◌, refl, ap, sym, subst, ◌∙◌, arith, inl, inr, Bool-cases,
}
use ketch.App.{Opaque, Env, ProcessSpec, AppSpec}
use ketch.Chart.Configurator.{
  Configurator, Probes, ServicePort, container_ports_for_process, service_ports_for_process, probes,
  lifecycle,
}
use ketch.Chart.Process.{
  Process, no_metadata, with_ports, has_open_port, port_env_variables, port_configurator,
  run_options, initial, units_or, new_process,
}
use ketch.Chart.Process.Labels.{set_label, set_annotation, with_labels, with_annotations}
use ketch.Chart.Process.Metadata.{
  OnlyMetadata, OnlyMetadata-trans, set_label-OnlyMetadata, set_annotation-OnlyMetadata,
  put_items-OnlyMetadata,
}
use ketch.Chart.Application.{process_options, cmd_of}

-- The first service port and the probes of a process, if it has ports of both kinds.
abbrev pub public_port : List ℤ → List ServicePort → ℤ
public_port (c ∷ cs) (s ∷ ss) = s.port
public_port cs ss = pos 0

abbrev pub probe_of : List ℤ → List ServicePort → Option Opaque → Option Opaque
probe_of (c ∷ cs) (s ∷ ss) probe = probe
probe_of cs ss probe = none

-- One unit, unless the app says another number.
abbrev pub units_of : Option ℤ → ℤ
units_of none = pos 1
units_of (some units) = units

-- A process of the chart before its labels and annotations and the variables for its ports.
abbrev pub unlabelled : Configurator → Bool → ProcessSpec → Process
unlabelled c routable p =
    let cs = container_ports_for_process c p.name in
    let ss = service_ports_for_process c p.name in
    record {
      name = p.name;
      cmd = cmd_of p.name c.procfile.processes;
      units = units_of p.units;
      routable = routable;
      container_ports = cs;
      service_ports = ss;
      public_service_port = public_port cs ss;
      env = p.env;
      security_context = p.security_context;
      resource_requirements = p.resources;
      volumes = p.volumes;
      volume_mounts = p.volume_mounts;
      readiness_probe = probe_of cs ss (probes c).readiness;
      liveness_probe = probe_of cs ss (probes c).liveness;
      startup_probe = probe_of cs ss (probes c).startup_probe;
      lifecycle = lifecycle c;
      service_metadata = no_metadata;
      deployment_metadata = no_metadata;
      pod_metadata = no_metadata;
    }

-- The variables of a process: its own, and those for its ports.
abbrev pub env_of : Configurator → ProcessSpec → List Env
env_of c p = p.env ++ port_env_variables p.name (container_ports_for_process c p.name)

-- The process of the chart for a process of the app: its metadata is what the app's labels and annotations
-- make of none, and everything else is what the app says.
pub record IsMade (spec : AppSpec) (version : ℤ) (c : Configurator) (routable : Bool)
    (p : ProcessSpec) (q : Process) : Type 0 where
  pub labelled : Process
  pub annotated : Process
  pub labels : with_labels spec.labels version (unlabelled c routable p) ≡ ok labelled
  pub annotations : with_annotations spec.annotations version labelled ≡ ok annotated
  pub made : q ≡ record annotated { env = env_of c p }
  pub others : OnlyMetadata (record (unlabelled c routable p) { env = env_of c p }) q
  pub has_port : routable ≡ true → has_open_port q ≡ true

with_ports_lem :
    (units : Option ℤ) (start : Process) (cs : List ℤ) (ss : List ServicePort) (found : Probes)
    → start.public_service_port ≡ pos 0
    → start.liveness_probe ≡ none
    → start.readiness_probe ≡ none
    → start.startup_probe ≡ none
    → with_ports cs ss (ok found) (record start { units = units_or units (pos 1) })
      ≡ ok (record start {
        units = units_of units;
        container_ports = cs;
        service_ports = ss;
        public_service_port = public_port cs ss;
        liveness_probe = probe_of cs ss found.liveness;
        readiness_probe = probe_of cs ss found.readiness;
        startup_probe = probe_of cs ss found.startup_probe;
      })
with_ports_lem none start [] ss found port l r s = ground (arith, port, l, r, s)
with_ports_lem (some u) start [] ss found port l r s = ground (arith, port, l, r, s)
with_ports_lem none start (c ∷ cs) [] found port l r s = ground (arith, port, l, r, s)
with_ports_lem (some u) start (c ∷ cs) [] found port l r s = ground (arith, port, l, r, s)
with_ports_lem none start (c ∷ cs) (p ∷ ss) found port l r s = refl
with_ports_lem (some u) start (c ∷ cs) (p ∷ ss) found port l r s = refl

module _ (spec : AppSpec) (version : ℤ) (c : Configurator) (p : ProcessSpec) (routable : Bool) where
  abbrev cs : List ℤ
  cs = container_ports_for_process c p.name

  abbrev ss : List ServicePort
  ss = service_ports_for_process c p.name

  abbrev start : Process
  start = record (initial p.name routable) {
    cmd = cmd_of p.name c.procfile.processes;
    units = units_or p.units (pos 1);
    env = p.env;
  }

  -- The process before its labels and annotations.
  abbrev bare : Process → Process
  bare q = record q {
    lifecycle = lifecycle c;
    security_context = p.security_context;
    resource_requirements = p.resources;
    volumes = p.volumes;
    volume_mounts = p.volume_mounts;
  }

  run_options_lem : run_options (process_options spec version c p) (initial p.name routable) ≡ (
      with_ports cs ss (ok (probes c)) start >>= λ q.
      with_labels spec.labels version (bare q) >>= λ r.
      with_annotations spec.annotations version r >>= λ s. ok s)
  unfolding port_configurator
  run_options_lem = refl

  -- What the options leave.
  options_lem :
      {r : Process}
      → run_options (process_options spec version c p) (initial p.name routable) ≡ ok r
      → (a : Process) × (with_labels spec.labels version (unlabelled c routable p) ≡ ok a)
        × (with_annotations spec.annotations version a ≡ ok r)
        × OnlyMetadata (unlabelled c routable p) r
  options_lem {r} h =
      let h1 : (with_labels spec.labels version (unlabelled c routable p) >>= λ a.
      with_annotations spec.annotations version a >>= λ s. ok s)
          ≡ ok r =
        ap
          (λ (m : Result Process). m >>= λ q. with_labels spec.labels version (bare q) >>= λ a.
            with_annotations spec.annotations version a >>= λ s. ok s)
          (sym (with_ports_lem p.units start cs ss (probes c) refl refl refl refl))
        ∙ sym run_options_lem
        ∙ h in
      let (a, labelled, h2) =
        returned _ (with_labels spec.labels version (unlabelled c routable p)) h1 in
      let (b, annotated, h3) = returned _ (with_annotations spec.annotations version a) h2 in
      (
        a,
        labelled,
        annotated ∙ h3,
        OnlyMetadata-trans (unlabelled c routable p) a r
            (put_items-OnlyMetadata set_label set_label-OnlyMetadata spec.labels version
              (unlabelled c routable p) labelled)
            (put_items-OnlyMetadata set_annotation set_annotation-OnlyMetadata spec.annotations
              version a (annotated ∙ h3)),
      )

  -- The end of newProcess.
  finish :
      {q : Process} (r : Process)
      → (if not r.routable
          then ok (record r { env = r.env ++ port_env_variables r.name r.container_ports })
          else if has_open_port r
          then ok (record r { env = r.env ++ port_env_variables r.name r.container_ports })
          else err (
              message
                "routable process should have at least one container port and one service port"))
        ≡ ok q
      → (q ≡ record r { env = r.env ++ port_env_variables r.name r.container_ports })
        × (r.routable ≡ true → has_open_port r ≡ true)
  finish {q} r h = elim (Bool-cases r.routable) [
    | inr private ↦ (ground (arith, h, private), λ e. cc)
    | inl public ↦ elim (Bool-cases (has_open_port r)) [
      | inl is_open ↦ (ground (arith, h, public, is_open), λ e. is_open)
      | inr closed ↦ ground (arith, h, public, closed)
    ]
  ]

  pub new_process-IsMade :
      {q : Process}
      → new_process p.name routable (process_options spec version c p) ≡ ok q
      → IsMade spec version c routable p q
  unfolding new_process
  new_process-IsMade {q} h =
      let (r, ran, h1) =
        returned _ (run_options (process_options spec version c p) (initial p.name routable)) h in
      let (a, labelled, annotated, only) = options_lem ran in
      let (e, has_port) = finish r h1 in
      let env : r.env ++ port_env_variables r.name r.container_ports ≡ env_of c p =
        ap (λ q. q.env ++ port_env_variables q.name q.container_ports) only in
      let made = e ∙ ap (λ vars. record r { env = vars }) env in
      record {
        labelled = a;
        annotated = r;
        labels = labelled;
        annotations = annotated;
        made = made;
        others =
            subst (OnlyMetadata (record (unlabelled c routable p) { env = env_of c p })) (sym made)
              (ap {A = Process} {B = Process} (λ x. record x { env = env_of c p }) only);
        has_port = λ public. ap has_open_port e ∙ has_port (ap (λ q. q.routable) only ∙ public);
      }
