-- ===== src/App/Ports.antt =====
-- internal/api/v1beta1/exposed_port.go and `ExposedPorts` of app_types.go. The letters of a protocol
-- are ASCII, as those of docker's `tcp`, `udp` and `sctp` are.
pub mod RoundTrip
use Prim.Native.Char.{Char, code}
use Prim.Native.String
use ketch.Base.{
  ℕ, zero, suc, ◌-◌, String, Bool, true, false, List, [], ◌∷◌, Option, none, some, ℤ, pos, beq_ℤ,
  leb, Result, ok, err, message, if◌then◌else◌, concat, itoa, atoi, ◌==◌, ◌&&◌, split_once,
}
use ketch.App.{ExposedPort, AppDeploymentSpec, App}

nth_char : ℕ → String → Char → Char
nth_char i String.[] c = c
nth_char zero (String.◌∷◌ d s) c = d
nth_char (suc i) (String.◌∷◌ d s) c = nth_char i s c

unfoldable pub upper : Char → Char
unfolding nth_char
upper c =
    if leb 97 (code c) && leb (code c) 122
    then nth_char (code c - 97) "ABCDEFGHIJKLMNOPQRSTUVWXYZ" c
    else c

-- strings.ToUpper
unfoldable pub to_upper : String → String
unfolding upper
to_upper String.[] = ""
to_upper (String.◌∷◌ c s) = String.◌∷◌ (upper c) (to_upper s)

unfoldable pub to_docker_format : ExposedPort → String
unfolding itoa
to_docker_format p =
    if beq_ℤ p.port (pos 0) && p.protocol == ""
    then ""
    else concat (itoa p.port ∷ "/" ∷ p.protocol ∷ [])

unfoldable pub new_exposed_port : String → Result ExposedPort
unfolding split_once atoi to_upper
new_exposed_port port = elim (split_once "/" port) [
  | none ↦ err (message (concat ("invalid port: " ∷ port ∷ [])))
  | some parts ↦ elim (atoi parts.0) [
    | none ↦ err (message (concat ("invalid port: " ∷ port ∷ [])))
    | some n ↦ ok (record { port = n; protocol = to_upper parts.1 })
  ]
]

-- m[version] = ports
unfoldable pub insert_version {ℓ} : {V : Type ℓ} → ℤ → V → List (ℤ × V) → List (ℤ × V)
insert_version version v [] = (version, v) ∷ []
insert_version version v ((w, old) ∷ m) =
    let rest = insert_version version v m in
    if beq_ℤ w version then (version, v) ∷ m else (w, old) ∷ rest

unfoldable pub collect_ports :
    List AppDeploymentSpec → List (ℤ × List ExposedPort) → List (ℤ × List ExposedPort)
unfolding insert_version
collect_ports [] ports = ports
collect_ports (d ∷ ds) ports = collect_ports ds (insert_version d.version d.exposed_ports ports)

-- `ExposedPorts`
unfoldable pub exposed_ports : App → List (ℤ × List ExposedPort)
unfolding collect_ports
exposed_ports app = collect_ports app.spec.deployments []
