-- ===== src/Deploy.antt =====
-- internal/deploy: what a deployment asks of its surroundings, and the errors of validations.go. A
-- part of this package checks the flags, one updates the App resource.
pub mod Flags
pub mod Getters
pub mod Files
pub mod Validate
pub mod Update
pub mod Crd
pub mod Yaml
pub mod Run
pub mod Wait
use ketch.Base.{
  String, Bool, true, false, Option, none, some, ℤ, Result, ok, err, Error, status, wrap,
  StatusType, missing_value, invalid_value, invalid_usage, if◌then◌else◌,
}
use ketch.App.{KetchYamlData}

-- What os.Stat finds at a path.
pub data FileStat : Type 0 where
  not_exist stat_failed directory regular_file : FileStat

-- The file system, path.Join and time.ParseDuration, and third-party functions: IsDNS1123Label of apimachinery, and the
-- reading and decoding of a ketch.yaml, strict or not.
pub record System : Type 0 where
  pub stat : String → FileStat
  pub join_path : String → String → String
  pub parse_duration : String → Option ℤ
  pub is_dns1123_label : String → Bool
  pub read_ketch_yaml : Bool → String → Result KetchYamlData

abbrev pub new_missing_error : String → Error
new_missing_error flag = status missing_value flag

abbrev pub new_invalid_value_error : String → Error
new_invalid_value_error flag = status invalid_value flag

abbrev pub new_invalid_usage_error : String → Error
new_invalid_usage_error flag = status invalid_usage flag

-- errors.As with a `statusError`
unfoldable pub status_of : Error → Option StatusType
status_of (status t flag) = some t
status_of (wrap text e) = status_of e
status_of _ = none

-- `isMissing` and `isValid` of an error that is not nil.
unfoldable pub is_missing : Error → Bool
unfolding status_of
is_missing e = elim (status_of e) [ some missing_value ↦ true | _ ↦ false ]

unfoldable pub is_valid : Error → Bool
unfolding status_of
is_valid e = elim (status_of e) [
  | some invalid_value ↦ false
  | some invalid_usage ↦ false
  | _ ↦ true
]

-- The value of a call whose error is dropped.
abbrev pub or_zero {ℓ} : {A : Type ℓ} → A → Result A → A
or_zero zero (ok a) = a
or_zero zero (err e) = zero

-- `assign`, for a function that stores the value in the app and ends without an error; with an error
-- that is neither missing nor of an invalid flag it stores the zero value.
unfoldable pub assign {ℓ κ} : {A : Type ℓ} {S : Type κ} → A → Result A → (A → S → S) → S → Result S
unfolding is_missing is_valid
assign zero (ok a) store s = ok (store a s)
assign zero (err e) store s =
    if is_missing e then ok s else if is_valid e then ok (store zero s) else err e
