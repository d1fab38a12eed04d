-- ===== src/Controllers/Reconcile/Request/Deletion.antt =====
-- The deletion of an app: its chart goes before its finalizer.
use ketch.Base.{
  String, Bool, true, false, List, [], ◌∷◌, ◌++◌, Option, none, some, Result, ok, err, Error, All,
  All-append, ◌≡◌, ◌≢◌, refl, ap, sym, ◌∙◌, subst, ◌==◌, ◌||◌, ◌⊎◌, inl, inr, concat, if◌then◌else◌,
  Bool-cases, Option-cases, Result-cases,
}
use ketch.App.{IngressControllerSpec, App}
use ketch.Controllers.Pods.{is_not_found, uninstall_helm_chart}
use ketch.Controllers.Cancel.{CancelMap}
use ketch.Controllers.Reconcile.{World, Reconciled, idle, fail}
use ketch.Controllers.Reconcile.Request.{
  release, written_as, hold, with_finalizer, delete_chart, deletes, wrote, reconcile_or_delete,
  reconcile_request, complete_controller, with_controller, get_ingress_controller_spec,
}

-- controllerutil's documented functions: a finalizer is there after it was added, and is not after it was
-- removed; adding one changes nothing else.
pub record AreFinalizers (world : World) : Type 0 where
  pub contains-add : (a : App) → world.contains_finalizer (world.add_finalizer a) ≡ true
  pub contains-remove : (a : App) → world.contains_finalizer (world.remove_finalizer a) ≡ false
  pub add_rest :
      (a : App)
      → world.add_finalizer a ≡ record a { finalizers = (world.add_finalizer a).finalizers }

-- The app's annotations ask for its chart to be kept.
abbrev pub is_kept : World → App → Bool
is_kept world app =
    if uninstall_helm_chart (concat (world.group ∷ "/dont-uninstall-helm-chart" ∷ []))
      app.annotations
    then false
    else true

-- The chart was deleted, or is to be kept.
abbrev pub IsGone : Bool → String → Reconciled → Type 0
IsGone kept name r = (kept ≡ true) ⊎ (r.deleted ≡ some name)

abbrev pub IsReleased : World → List App → Type 0
IsReleased world written =
    (last : App) × (rest : List App) × (written ≡ last ∷ rest)
    × (world.contains_finalizer last ≡ false)

-- For an app of the given name: nothing is installed, an app without the finalizer is written only if the
-- chart is gone, and this has happened unless there is an error.
pub record IsDeletion (world : World) (kept : Bool) (name : String) (r : Reconciled) : Type 0 where
  pub nothing_installed : r.installed ≡ none
  pub no_status : r.status ≡ none
  pub held : All (λ a. (world.contains_finalizer a ≡ true) ⊎ IsGone kept name r) r.written
  pub released : (r.error ≢ none) ⊎ (IsGone kept name r × IsReleased world r.written)

module _ (world : World) (laws : AreFinalizers world) where
  written_as-IsDeletion :
      (kept : Bool) (app : App) (cm : CancelMap) (deleted : Option String) (failure : Option Error)
      → IsGone kept app.name (record (idle cm app) { deleted = deleted })
      → IsDeletion world kept app.name (
          written_as world
            (world.remove_finalizer app)
            (record (idle cm app) { deleted = deleted })
            failure)
  written_as-IsDeletion kept app cm deleted (some e) gone = record {
    nothing_installed = refl;
    no_status = refl;
    held = tt;
    released = inl (λ k. cc);
  }
  written_as-IsDeletion kept app cm deleted none gone = record {
    nothing_installed = refl;
    no_status = refl;
    held = (inr gone, tt);
    released = inr (gone, (world.remove_finalizer app, [], refl, laws.contains-remove app));
  }

  release-IsDeletion :
      (kept : Bool) (app : App) (cm : CancelMap) (deleted : Option String)
      → IsGone kept app.name (record (idle cm app) { deleted = deleted })
      → IsDeletion world kept app.name
          (release world app (record (idle cm app) { deleted = deleted }))
  unfolding release
  release-IsDeletion kept app cm deleted gone =
      written_as-IsDeletion kept app cm deleted (world.cluster.update (world.remove_finalizer app))
        gone

  fail-IsDeletion :
      (kept : Bool) (name : String) (app : App) (cm : CancelMap) (e : Error)
      → IsDeletion world kept name (fail e (idle cm app))
  fail-IsDeletion kept name app cm e = record {
    nothing_installed = refl;
    no_status = refl;
    held = tt;
    released = inl (λ k. cc);
  }

  delete_chart-IsDeletion :
      (app : App) (cm : CancelMap)
      → IsDeletion world (is_kept world app) app.name (delete_chart world cm app)
  unfolding delete_chart
  delete_chart-IsDeletion app cm =
      elim (Bool-cases (
        uninstall_helm_chart (concat (world.group ∷ "/dont-uninstall-helm-chart" ∷ []))
          app.annotations)) [
            | inr kept ↦ rw (kept, delete_chart) (release-IsDeletion true app cm none (inl refl))
            | inl gone ↦ elim (Option-cases (world.helm app.spec.namespace)) [
              | inr (e, h) ↦ rw (gone, delete_chart, h) (fail-IsDeletion false app.name app cm e)
              | inl h ↦ elim (Option-cases (world.delete_chart app.name)) [
                | inr (e, k) ↦
                    rw (gone, delete_chart, h, k) (fail-IsDeletion false app.name app cm e)
                | inl k ↦
                    rw (gone, delete_chart, h, k)
                      (release-IsDeletion false app cm (some app.name) (inr refl))
              ]
            ]
          ]

  reconcile_or_delete-IsDeletion :
      (app : App) (cm : CancelMap)
      → deletes world app ≡ true
      → IsDeletion world (is_kept world app) app.name (reconcile_or_delete world cm app)
  unfolding reconcile_or_delete
  reconcile_or_delete-IsDeletion app cm h =
      rw (h, reconcile_or_delete) (delete_chart-IsDeletion app cm)

  wrote-IsDeletion :
      (kept : Bool) (name : String) (app : App) (r : Reconciled)
      → world.contains_finalizer app ≡ true
      → IsDeletion world kept name r
      → IsDeletion world kept name (wrote world (app ∷ []) r)
  wrote-IsDeletion kept name app r has d = record {
    nothing_installed = d.nothing_installed;
    no_status = d.no_status;
    held = All-append _ r.written (app ∷ []) d.held (inl has, tt);
    released = elim d.released [
      | inl failed ↦ inl failed
      | inr (gone, (last, rest, e, without)) ↦
          inr (gone, (last, rest ++ (app ∷ []), ap (λ ws. ws ++ (app ∷ [])) e, without))
    ];
  }

  hold-IsDeletion :
      (kept : Bool) (name : String) (cm : CancelMap) (app : App) (failure : Option Error)
      → world.contains_finalizer app ≡ true
      → IsDeletion world kept name (reconcile_or_delete world cm app)
      → IsDeletion world kept name (hold world cm app failure)
  hold-IsDeletion kept name cm app (some e) has d = fail-IsDeletion kept name app cm e
  hold-IsDeletion kept name cm app none has d = wrote-IsDeletion kept name app _ has d

  with_finalizer-IsDeletion :
      (app : App) (cm : CancelMap)
      → deletes world app ≡ true
      → IsDeletion world (is_kept world app) app.name (with_finalizer world cm app)
  unfolding with_finalizer
  with_finalizer-IsDeletion app cm h = elim (Bool-cases (world.contains_finalizer app)) [
    | inl has ↦ rw (has, with_finalizer) (reconcile_or_delete-IsDeletion app cm h)
    | inr lacks ↦
        let held = world.add_finalizer app in
        let e = laws.add_rest app in
        let d = reconcile_or_delete-IsDeletion held cm (ap (deletes world) e ∙ h) in
        let moved : IsDeletion world (is_kept world app) app.name
            (reconcile_or_delete world cm held) =
          subst (λ k. IsDeletion world k app.name (reconcile_or_delete world cm held))
            (ap (is_kept world) e)
            (subst
              (λ name.
                IsDeletion world (is_kept world held) name (reconcile_or_delete world cm held))
              (ap (λ a. a.name) e) d) in
        rw (lacks, with_finalizer)
          (hold-IsDeletion (is_kept world app) app.name cm held (world.cluster.update held)
            (laws.contains-add app) moved)
  ]

  -- The request ends early, with no app written, or as a deletion.
  abbrev pub IsDeletedOr : App → Option Error ⊎ Reconciled → Type 0
  IsDeletedOr app (inl early) = Unit
  IsDeletedOr app (inr r) = IsDeletion world (is_kept world app) app.name r

  -- An answer differs from the app at most in the ingress controller.
  abbrev Fills : App → Result App → Type 0
  Fills app (err e) = Unit
  Fills app (ok app') = (c : IngressControllerSpec) × (app' ≡ with_controller world app c)

  complete_controller-Fills : (app : App) → Fills app (complete_controller world app)
  unfolding complete_controller
  complete_controller-Fills app =
      let c = app.spec.ingress.controller in
      elim (Bool-cases (c.ingress_type == "" || c.service_endpoint == "" || c.class_name == "")) [
        | inr given ↦ rw (given, complete_controller, Fills) (c, refl)
        | inl missing ↦ elim (Result-cases (get_ingress_controller_spec world)) [
          | inl (found, h) ↦ rw (missing, complete_controller, h, Fills) (found, refl)
          | inr (e, h) ↦ elim (Bool-cases (is_not_found e)) [
            | inl absent ↦ rw (missing, complete_controller, h, absent, Fills) (c, refl)
            | inr broken ↦ rw (missing, complete_controller, h, broken, Fills) tt
          ]
        ]
      ]

  answer-IsDeletedOr :
      (app : App) (cm : CancelMap) (found : Result App)
      → Fills app found
      → deletes world app ≡ true
      → IsDeletedOr app (elim found as (λ _. Option Error ⊎ Reconciled) [
        | err e ↦ inl (some e)
        | ok app' ↦ inr (with_finalizer world cm app')
      ])
  answer-IsDeletedOr app cm (err e) fills h = tt
  answer-IsDeletedOr app cm (ok app') (c, e) h =
      subst (λ a. IsDeletion world (is_kept world app) app.name (with_finalizer world cm a)) (sym e)
        (with_finalizer-IsDeletion (with_controller world app c) cm h)

  -- A reconcile of an app that is to be deleted installs no chart and writes no status. It writes the app
  -- without its finalizer only when the chart was deleted or is to be kept, and when it ends without an
  -- error it has done both. It may also end early with nothing written.
  pub reconcile_request-IsDeletion :
      (app : App) (cm : CancelMap)
      → deletes world app ≡ true
      → IsDeletedOr app (reconcile_request world cm (ok app))
  unfolding reconcile_request
  reconcile_request-IsDeletion app cm h =
      answer-IsDeletedOr app cm (complete_controller world app) (complete_controller-Fills app) h
