-- ===== src/Deploy/Validate/Accepts.antt =====
-- Which flags `validateDeploy` accepts.
use ketch.Base.{
  String, Bool, true, false, List, [], ◌∷◌, Option, none, some, pos, leb_ℤ, Dict, lookup, Result,
  ok, err, ◌>>=◌, ◌&&◌, ◌||◌, not, ◌≡◌, refl, ◌∙◌, arith, inl, inr, Option-cases, parse_bool,
}
use ketch.App.{AppDeploymentSpec, App}
use ketch.App.Units.{is_some}
use ketch.Deploy.{System}
use ketch.Deploy.Flags.{ChangeSet}
use ketch.Deploy.Getters.{
  get_image, get_steps, get_units, get_version, get_process, get_read_only, mounts_of,
  get_volume_mounts, get_run_as_user, get_fs_group, get_wait,
}
use ketch.Deploy.Files.{get_step_interval, get_timeout, get_volume_name, get_volumes}
use ketch.Deploy.Validate.{check, check_deployments, check_canary, check_wait, validate_deploy}

abbrev pub is_ok {ℓ} : {A : Type ℓ} → Result A → Bool
is_ok (ok a) = true
is_ok (err e) = false

-- A flag that was not set, or one whose value passes a test.
abbrev pub if_set {ℓ} : {A : Type ℓ} → Option A → (A → Bool) → Bool
if_set none test = true
if_set (some a) test = test a

abbrev pub is_single : List AppDeploymentSpec → Bool
is_single [] = false
is_single (d ∷ []) = true
is_single (d ∷ e ∷ ds) = false

-- A `readOnly` option that is not a Boolean is refused.
abbrev pub read_only_parses : Dict String → Bool
read_only_parses options = if_set (lookup "readOnly" options) (λ value. is_some (parse_bool value))

module _ (system : System) where
  abbrev pub parses : Option String → Bool
  parses duration = elim duration [
    | none ↦ false
    | some text ↦ is_some (system.parse_duration text)
  ]

  abbrev pub accepts_canary : ChangeSet → List AppDeploymentSpec → Bool
  accepts_canary cs ds =
      if_set cs.steps
        (λ n. leb_ℤ (pos 2) n && leb_ℤ n (pos 100) && is_single ds && parses cs.step_time_interval)

  abbrev pub accepts_units : ChangeSet → Bool
  accepts_units cs =
      if_set cs.units (λ units. leb_ℤ (pos 1) units)
      && if_set cs.version (λ version. is_some cs.units && leb_ℤ (pos 1) version)
      && if_set cs.process (λ process. is_some cs.units)

  abbrev pub accepts_volume : ChangeSet → Bool
  accepts_volume cs = elim cs.volume [
    | none ↦ not (is_some cs.volume_mount_path) && not (is_some cs.volume_mount_options)
    | some volume ↦
        system.is_dns1123_label volume && if_set cs.volume_mount_options read_only_parses
  ]

  abbrev pub accepts_security : ChangeSet → Bool
  accepts_security cs =
      if_set cs.run_as_user (λ user. leb_ℤ (pos 0) user)
      && if_set cs.fs_group (λ group. leb_ℤ (pos 1) group)

  abbrev pub accepts_wait : ChangeSet → Bool
  accepts_wait cs = if_set cs.wait (λ wait. not wait || parses cs.timeout)

  -- The flags that a deployment of an app with these deployments may have.
  abbrev pub accepts : ChangeSet → List AppDeploymentSpec → Bool
  accepts cs ds =
      is_some cs.image
      && accepts_canary cs ds
      && accepts_units cs
      && accepts_volume cs
      && accepts_security cs
      && accepts_wait cs

  check_canary_lem :
      (cs : ChangeSet) (ds : List AppDeploymentSpec)
      → is_ok (check_canary system cs ds) ≡ accepts_canary cs ds
  unfolding check_canary check_deployments get_steps get_step_interval
  check_canary_lem cs [] = ground arith
  check_canary_lem cs (d ∷ []) = ground arith
  check_canary_lem cs (d ∷ e ∷ ds) = ground arith

  check_units_lem :
      (cs : ChangeSet)
      → (is_ok (check (get_units cs))
          && is_ok (check (get_version cs))
          && is_ok (check (get_process cs)))
        ≡ accepts_units cs
  unfolding check get_units get_version get_process
  check_units_lem cs = ground arith

  -- A value that is worked on further is checked as it is.
  is_ok-check :
      {A B : Type 0} (r : Result A) (f : A → B)
      → is_ok (check (r >>= λ a. ok (f a))) ≡ is_ok (check r)
  unfolding check
  is_ok-check (ok a) f = refl
  is_ok-check (err e) f = refl

  check_read_only_lem :
      (options : Option (Dict String))
      → is_ok (check (get_read_only options)) ≡ if_set options read_only_parses
  unfolding check get_read_only
  check_read_only_lem none = refl
  check_read_only_lem (some options) = elim (Option-cases (lookup "readOnly" options)) [
    | inl e ↦ rw (e, get_read_only, read_only_parses) refl
    | inr (value, e) ↦ elim (Option-cases (parse_bool value)) [
      | inl k ↦ rw (e, get_read_only, k, read_only_parses) refl
      | inr (b, k) ↦ rw (e, get_read_only, k, read_only_parses) refl
    ]
  ]

  check_mounts_lem :
      (cs : ChangeSet) (volume : String)
      → is_ok (check (mounts_of cs volume)) ≡ if_set cs.volume_mount_options read_only_parses
  unfolding mounts_of
  check_mounts_lem cs volume =
      is_ok-check (get_read_only cs.volume_mount_options) _
      ∙ check_read_only_lem cs.volume_mount_options

  check_volume_lem :
      (cs : ChangeSet)
      → (is_ok (check (get_volume_name system cs))
          && is_ok (check (get_volumes system cs))
          && is_ok (check (get_volume_mounts cs)))
        ≡ accepts_volume cs
  unfolding check get_volume_name get_volumes get_volume_mounts mounts_of get_read_only
  check_volume_lem cs = elim (Option-cases cs.volume) [
    | inl e ↦ ground arith
    | inr (volume, e) ↦
        rw (e, get_volume_name, get_volumes, get_volume_mounts, accepts_volume)
          (ground (arith, check_mounts_lem cs volume))
  ]

  check_security_lem :
      (cs : ChangeSet)
      → (is_ok (check (get_run_as_user cs)) && is_ok (check (get_fs_group cs)))
        ≡ accepts_security cs
  unfolding check get_run_as_user get_fs_group
  check_security_lem cs = ground arith

  check_wait_lem : (cs : ChangeSet) → is_ok (check_wait system cs) ≡ accepts_wait cs
  unfolding check_wait get_wait get_timeout
  check_wait_lem cs = ground arith

  image_lem : (cs : ChangeSet) → is_ok (get_image cs) ≡ is_some cs.image
  unfolding get_image
  image_lem cs = ground arith

  regroup :
      (i c u v p n vs m r g w : Bool) {i' c' units volume security w' : Bool}
      → i ≡ i'
      → c ≡ c'
      → (u && v && p) ≡ units
      → (n && vs && m) ≡ volume
      → (r && g) ≡ security
      → w ≡ w'
      → (i && (c && (u && (v && (p && (n && (vs && (m && (r && (g && w))))))))))
        ≡ (i' && c' && units && volume && security && w')
  regroup i c u v p n vs m r g w a b d e f h = ground arith

  -- The second check runs when the first one passes.
  is_ok-then :
      {A : Type 0} (r : Result A) (s : Result (Unit {0}))
      → is_ok (r >>= λ a. s) ≡ (is_ok r && is_ok s)
  is_ok-then (ok a) s = refl
  is_ok-then (err e) s = refl

  -- `validateDeploy` succeeds on exactly the flags that `accepts` describes.
  pub validate_deploy-accepts :
      (cs : ChangeSet) (app : App)
      → is_ok (validate_deploy system cs app) ≡ accepts cs app.spec.deployments
  unfolding validate_deploy
  validate_deploy-accepts cs app = simp is_ok-then (
      regroup (is_ok (get_image cs)) (is_ok (check_canary system cs app.spec.deployments))
        (is_ok (check (get_units cs))) (is_ok (check (get_version cs)))
        (is_ok (check (get_process cs))) (is_ok (check (get_volume_name system cs)))
        (is_ok (check (get_volumes system cs))) (is_ok (check (get_volume_mounts cs)))
        (is_ok (check (get_run_as_user cs))) (is_ok (check (get_fs_group cs)))
        (is_ok (check_wait system cs)) (image_lem cs) (check_canary_lem cs app.spec.deployments)
        (check_units_lem cs) (check_volume_lem cs) (check_security_lem cs) (check_wait_lem cs))
