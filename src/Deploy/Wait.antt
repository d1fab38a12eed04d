-- ===== src/Deploy/Wait.antt =====
-- `watchAppReconcileEvent` of internal/deploy/wait.go: the events that a deployment waits for.
use ketch.Base.{String, Bool, ◌==◌}
use ketch.App.{App}
use ketch.App.Canary.{Emitted}
use ketch.App.Reports.{outcome_success}

-- The reason that the field selector asks for.
unfoldable pub awaited_reason : App → String
unfolding outcome_success
awaited_reason app =
    outcome_success (record { app_name = app.name; deployment_count = app.spec.deployments_count })

-- Whether the watch delivers an event of the app.
unfoldable pub is_awaited : App → Emitted → Bool
unfolding awaited_reason
is_awaited app e = e.reason == awaited_reason app
