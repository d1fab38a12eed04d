-- ===== src/Commands/App.antt =====
-- cmd/ketch/app_start.go, app_stop.go and app_remove.go.
pub mod Laws
use ketch.Base.{String, Option, none, some, ℤ, Result, ok, err, Error, wrap}
use ketch.App.{App}
use ketch.App.Units.{Selector, new_selector, start, stop}
use ketch.Commands.Cname.{Outcome, failed}

-- `appStartOptions` and `appStopOptions`, but for the name of the app.
pub record SelectOptions : Type 0 where
  pub process_name : String
  pub deployment_version : ℤ

-- The client's Update, if the app could be changed.
abbrev pub update_changed : String → (App → Option Error) → App × Result (Unit {0}) → Outcome
update_changed text client (app, err e) = failed (wrap text e)
update_changed text client (app, ok _) = record {
  written = some app;
  result = elim (client app) [ none ↦ ok tt | some e ↦ err (wrap "failed to update app" e) ];
}

-- `appStart`, from what the client's Get answers
unfoldable pub app_start : SelectOptions → Result App → (App → Option Error) → Outcome
unfolding start new_selector
app_start options get client = elim get [
  | err e ↦ failed (wrap "failed to get app" e)
  | ok app ↦
      update_changed "failed to start app" client
        (start (new_selector options.deployment_version options.process_name) app)
]

-- `appStop`
unfoldable pub app_stop : SelectOptions → Result App → (App → Option Error) → Outcome
unfolding stop new_selector
app_stop options get client = elim get [
  | err e ↦ failed (wrap "failed to get app" e)
  | ok app ↦
      update_changed "failed to stop app" client
        (stop (new_selector options.deployment_version options.process_name) app)
]

-- `appRemove`; `delete` is the client's Delete.
unfoldable pub app_remove : Result App → (App → Option Error) → Result (Unit {0})
app_remove get delete = elim get [
  | err e ↦ err (wrap "failed to get app" e)
  | ok app ↦ elim (delete app) [ none ↦ ok tt | some e ↦ err (wrap "failed to delete app" e) ]
]
