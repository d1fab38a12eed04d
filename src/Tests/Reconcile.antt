-- ===== src/Tests/Reconcile.antt =====
-- Reconciles of a canary in progress.
use ketch.Base.{
  ◌+ℤ◌, String, ℤ, List, [], ◌∷◌, Option, none, pos, Result, ok, Error, message, refl, arith,
}
use ketch.App.{App}
use ketch.Controllers.Pods.{Pod, pod_pending, check_pod_status, timeout_expired}
use ketch.Controllers.Canary.{Cluster, canary_block}
use ketch.Controllers.Canary.Timeout.{IsRolledBack, IsStored, canary_block-IsRolledBack}
use ketch.Tests.Data.{canary_app}
use ketch.Tests.Canary.{start_of_canary}

abbrev pods : String → ℤ → Result (List Pod)
pods name version = ok (record { name = "hello-1"; phase = pod_pending; conditions = [] } ∷ [])

abbrev update : App → Option Error
update app = none

-- A cluster whose pods are pending, eleven minutes after the start of the canary.
abbrev late_cluster : Cluster
late_cluster = record { pods = pods; hpas = ok []; now = pos 660000000000; update = update }

canary_block-IsRolledBack_example :
    let block = canary_block late_cluster canary_app in
    IsRolledBack canary_app block.app × IsStored (late_cluster.update block.app) block
unfolding check_pod_status timeout_expired ◌+ℤ◌
canary_block-IsRolledBack_example =
    canary_block-IsRolledBack late_cluster 2 0 (pos 2) canary_app (omega arith) (omega arith)
      (omega arith) start_of_canary (message "all pods are not running") refl refl
