-- ===== src/Tests/Chart.antt =====
-- The labels, the entry points and the ports of an app.
use ketch.Base.{
  Pointwise, true, false, [], ◌∷◌, ◌++◌, map, none, some, pos, ok, err, message, ◌≡◌, refl, ◌==◌,
  ◌&&◌, any, if◌then◌else◌, All, negsuc,
}
use ketch.App.{App, IngressControllerSpec}
use ketch.App.Labels.{update_app_labels_for_ingress}
use ketch.App.Labels.Laws.{update_app_labels_for_ingress_idempotent}
use ketch.Chart.Ingress.{new_ingress, strip_cname, strip_from}
use ketch.Chart.Ingress.Endpoints.{endpoints, default_endpoint, new_ingress-endpoints}
use ketch.Chart.Configurator.{
  Configurator, new_configurator, to_int32, lifecycle, process_port_configs,
  container_ports_for_process, service_ports_for_process,
}
use ketch.Chart.Configurator.Ports.{is_port, service_ports_for_process-container_ports}
use ketch.App.{deployment_app_type}
use ketch.App.Ports.{exposed_ports}
use ketch.Deploy.{or_zero}
use ketch.Chart.Process.Labels.{is_metadata_key, put_items}
use ketch.Chart.Application.{
  ApplicationChart, Options, with_exposed_ports, new_chart, is_app_accessible,
}
use ketch.Chart.Application.Service.{is_some, TakesTraffic, gateway}
use ketch.Chart.Application.Made.{IsRendered, has_traffic, new_chart-IsRendered}
use ketch.Tests.Data.{canary_app}

update_app_labels_for_ingress_idempotent_example :
    update_app_labels_for_ingress (update_app_labels_for_ingress canary_app)
    ≡ update_app_labels_for_ingress canary_app
update_app_labels_for_ingress_idempotent_example =
    update_app_labels_for_ingress_idempotent canary_app

abbrev secure_app : App
secure_app = record canary_app {
  spec = record canary_app.spec {
    ingress = record canary_app.spec.ingress {
      cnames =
          record { name = "a.com"; secure = false; secret_name = "" }
          ∷ record { name = "b.C_1.com"; secure = true; secret_name = "" }
          ∷ [];
    };
  };
}

abbrev controller : IngressControllerSpec
controller = record canary_app.spec.ingress.controller { cluster_issuer = "letsencrypt" }

stripped : strip_cname "b.C_1.com" ≡ "b-1-com"
unfolding strip_from
stripped = refl

new_ingress-endpoints_example : new_ingress secure_app controller ≡ (
    if controller.cluster_issuer == "" && any (λ c. c.secure) secure_app.spec.ingress.cnames
    then err (message "secure cnames require a Ingress.ClusterIssuer to be specified")
    else ok (record (endpoints secure_app.name secure_app.spec.ingress.cnames) {
      http =
          (endpoints secure_app.name secure_app.spec.ingress.cnames).http
          ++ default_endpoint secure_app;
    }))
new_ingress-endpoints_example = new_ingress-endpoints secure_app controller

abbrev configurator : Configurator
unfolding new_configurator
configurator =
    new_configurator
      (some (record {
        hooks = some (record { restart = record { before = []; after = "a" ∷ "b" ∷ [] } });
        healthcheck = none;
        kubernetes = some (record {
          processes =
              (
                "web",
                record {
                  ports =
                      record { name = ""; protocol = "TCP"; port = pos 80; target_port = pos 0 }
                      ∷ record { name = "x"; protocol = "TCP"; port = pos 0; target_port = pos 0 }
                      ∷ [];
                },
              )
              ∷ [];
        });
      }))
      (record { processes = []; routable_process_name = "web" })
      (record { port = pos 9090; protocol = "tcp" } ∷ []) (pos 8888)

hook : lifecycle configurator ≡ some ("sh" ∷ "-c" ∷ "a && b" ∷ [])
unfolding lifecycle configurator
hook = refl

narrowed : to_int32 (pos 4294967295) ≡ negsuc 0
unfolding to_int32
narrowed = refl

web_ports : container_ports_for_process configurator "web" ≡ pos 80 ∷ pos 8888 ∷ []
unfolding container_ports_for_process configurator
web_ports = refl

service_ports_for_process-container_ports_example :
    (map (λ s. s.target_port) (service_ports_for_process configurator "web")
      ≡ container_ports_for_process configurator "web")
    × All
        (λ s. (is_port s.port ≡ true) × (is_port s.target_port ≡ true))
        (service_ports_for_process configurator "web")
unfolding configurator process_port_configs
service_ports_for_process-container_ports_example =
    service_ports_for_process-container_ports configurator "web" refl
      ((refl, refl), ((refl, refl), tt))

-- The two deployments of a canary, the first one with all the traffic.
abbrev options : Options
options = record { exposed_ports = with_exposed_ports (exposed_ports canary_app); templates = [] }

abbrev no_chart : ApplicationChart
no_chart = record {
  app = record {
    id = "";
    name = "";
    deployments = [];
    env = [];
    ingress = record { http = []; https = [] };
    is_accessible = false;
    service = none;
    metadata_labels = [];
    metadata_annotations = [];
    service_account_name = "";
    security_context = none;
    volume_claim_templates = [];
    type = deployment_app_type;
  };
  ingress_controller = controller;
  templates = [];
}

abbrev chart : ApplicationChart
chart = or_zero no_chart (new_chart options canary_app)

chart_lem : new_chart options canary_app ≡ ok chart
unfolding new_chart with_exposed_ports exposed_ports container_ports_for_process
    service_ports_for_process put_items
chart_lem = refl

chart_tests :
    (map (λ d. map (λ p. p.container_ports) d.processes) chart.app.deployments
      ≡ ((pos 8888 ∷ []) ∷ (pos 8888 ∷ []) ∷ []) ∷ ((pos 8888 ∷ []) ∷ []) ∷ [])
    × (chart.app.is_accessible ≡ true)
unfolding new_chart with_exposed_ports exposed_ports container_ports_for_process
    service_ports_for_process put_items
chart_tests = (refl, refl)

new_chart-IsRendered_example :
    Pointwise (IsRendered canary_app.spec options) canary_app.spec.deployments chart.app.deployments
    × (chart.app.service ≡ gateway chart.app.deployments)
    × TakesTraffic chart.app.service
    × (is_some chart.app.service ≡ any has_traffic canary_app.spec.deployments)
    × (new_ingress canary_app canary_app.spec.ingress.controller ≡ ok chart.app.ingress)
    × (chart.app.is_accessible ≡ is_app_accessible chart.app.ingress chart.app.deployments)
new_chart-IsRendered_example = new_chart-IsRendered options canary_app chart chart_lem

metadata_key_tests :
    (is_metadata_key "theketch.io/app-name" ≡ true)
    × (is_metadata_key "a b" ≡ false)
    × (is_metadata_key "1/a" ≡ false)
    × (is_metadata_key "sidecar.istio.io/inject" ≡ true)
unfolding is_metadata_key
metadata_key_tests = (refl, refl, refl, refl)
