-- ===== src/Lib.antt =====
-- Ketch deploys applications to Kubernetes. The parts of the program and the files that model them:
--
-- App (internal/api/v1beta1): the App resource and its methods. App.antt has the data model of
--   app_types.go, ketch_yaml.go, exposed_port.go, ingress.go and condition.go; App/Units.antt has
--   SetUnits, Stop, Start and Units with the Selector of selector.go; App/Events.antt and its child
--   TargetChange have the canary events and their annotations; App/Scaling.antt has getUpdatedUnits
--   and the loops of DoCanary that scale processes; App/Canary.antt has DoCanary and DoRollback;
--   App/Envs.antt has SetEnvs, Envs and UnsetEnvs; App/Status.antt has SetCondition, Condition, Phase,
--   CNames and DefaultCname; App/Ports.antt has the exposed ports; App/Labels.antt has AddLabel, and
--   UpdateAppLabelsForIngress of app_controller.go; App/Reports.antt has the events of a rollout with
--   their annotations, and the texts of an outcome.
-- Jobs (internal/api/v1beta1, internal/controllers): Jobs.antt has job_types.go, Jobs/Webhook.antt has
--   the validations of job_webhook.go, Jobs/Controller.antt has job_controller.go and job_chart.go.
-- Deploy (internal/deploy): a deployment from flags or from an application.yaml. Deploy/Flags.antt has
--   the ChangeSet of the given flags, Deploy/Getters.antt and Deploy/Files.antt its checked readers
--   (parameters.go), Deploy/Validate.antt the checks of validations.go, Deploy/Update.antt has
--   getUpdatedApp, Deploy/Crd.antt updateAppCRD and Deploy/Run.antt Run with deployImage, which
--   joins them (deploy.go), Deploy/Wait.antt has the events of wait.go, Deploy/Yaml.antt has yaml.go.
--   Both functions of deploy.go that retry are modelled as one attempt, from the app that the client
--   gets to the app that it writes; the retry on a conflict is client-go's.
-- Chart (internal/chart): Chart/Procfile.antt has procfile.go, and makeProcfile of deploy.go;
--   Chart/Configurator.antt has configurator.go and Chart/Ingress.antt has ingress.go;
--   Chart/Process.antt has newProcess with its options, of which Chart/Process/Labels.antt has the
--   labels and annotations (process.go); Chart/Application.antt has New and NewChartConfig of
--   application_chart.go, the values that the templates are rendered with.
-- Controllers (internal/controllers): Controllers/Cancel.antt has cancel_map.go, one step per
--   operation under its lock. Of app_controller.go, Controllers/Pods.antt has the pod check, the
--   timeout and the autoscalers' targets; Controllers/Canary.antt the canary block of reconcile,
--   which calls DoCanary and DoRollback and writes the app, and its child Refinement the abstract
--   canary; Controllers/Workload.antt the deployment or stateful set that a rollout is watched by,
--   Controllers/Rollout.antt watchDeployEvents, Controllers/Progress.antt and Controllers/Watch.antt
--   the loop of watchFunc, with its ends in the child Ends, Controllers/Unready.antt the error of its
--   timeouts;
--   Controllers/Reconcile.antt reconcile, with the app as it is stored after many reconciles in its
--   child Refinement, and its child Request Reconcile and deleteChart.
-- Commands (cmd/ketch): Commands/Cname.antt has cnameAdd and cnameRemove, and ValidateCname of
--   internal/validation; Commands/Log.antt has app_log.go, with a channel as the list of what it
--   delivers; Commands/Env.antt has env_set.go, env_unset.go and env_get.go; Commands/App.antt has
--   app_start.go, app_stop.go and app_remove.go; Commands/Job.antt has job_deploy.go,
--   job_export.go, job_list.go and job_remove.go; Commands/Info.antt has the states of pods and apps
--   of app.go, and the rows of app_info.go and app_list.go.
--
-- updateAppCRD sets a canary up. Each reconcile makes the chart with New, runs the canary block, whose
-- DoCanary calls bring the canary to its end, installs the chart, and starts the goroutine that watches
-- the rollout of each process, under the cancel map.
--
-- Numbers. `int` is ℤ with the wrap-around of 64 bits written out in every sum (`add_int`), `uint8`
-- and `uint16` are naturals with their modulus written out. The float64 arithmetic of
-- getUpdatedUnits is computed exactly, as naturals with a binary scale, rounded to 53 bits
-- (Base/Float.antt). Texts are the native strings, maps are association lists, a `range` over a map
-- visits the entries in the order of the list. Times are integers, and their sums do not wrap.
-- ToUpper is that of ASCII letters. A slice that is nil is an empty list.
--
-- Fuel. `excess` (Base/Float.antt) takes 20 rounds for the at most 16 bits beyond 53,
-- `find_scale` takes 8 for the seven scales beyond 52, `print_nat` (Base/Text.antt) takes one round
-- more than the number, `merge` (Commands/Log.antt) one for each message. The loop of watchFunc,
-- which waits in each round for a timer, for the cluster or for its context, recurs on the list of
-- what its rounds meet.
--
-- Parameters. What the code asks of the file system, of time.ParseDuration and path.Join, of the label
-- test of apimachinery and of the decoding of YAML and JSON is a field of `System` (Deploy.antt) or an
-- argument; what a deployment asks of the builder, the registry and the client is a field of `Services`
-- (Deploy/Run.antt), of the command for jobs of `JobClient` (Commands/Job.antt); what a reconcile asks of the cluster is a field of `Cluster` (Controllers/Canary.antt), of
-- `World` (Controllers/Reconcile.antt) or of `JobWorld` (Jobs/Controller.antt), where the templates, Helm,
-- the clock, fmt's text of an error and controllerutil's functions for finalizers stand, too; the checks
-- of names that ValidateCname calls are those of `Dns` (Commands/Cname.antt). Nothing is assumed of them,
-- but that a finalizer is added and removed without any other change (`AreFinalizers`, where it is named).
--
-- Not modelled: the logger's lines, the generated code, the Kubernetes, Helm, pack and registry
-- clients, the output of the commands, the files of a chart.
pub mod Base
pub mod App
pub mod Chart
pub mod Commands
pub mod Jobs
pub mod Controllers
pub mod Deploy
pub mod Tests
