-- ===== src/Chart/Configurator/Ports.antt =====
-- The service of a process sends its traffic to the ports of the container.
use ketch.Base.{
  ◌∙◌, sym, negsuc, ℕ, suc, String, Bool, true, List, [], ◌∷◌, map, ℤ, pos, ltb_ℤ, leb_ℤ, All, ◌≡◌,
  refl, ap, arith, ◌&&◌,
}
use ketch.App.{KetchYamlProcessPortConfig}
use ketch.Chart.Configurator.{
  Configurator, first_port, to_int32, container_ports, service_ports, process_port_configs,
  container_ports_for_process, service_ports_for_process,
}

-- A port number: from 1 to 65535.
abbrev pub is_port : ℤ → Bool
is_port p = ltb_ℤ (pos 0) p && leb_ℤ p (pos 65535)

-- A port of a ketch.yaml, which may be left out.
abbrev pub is_port_or_unset : ℤ → Bool
is_port_or_unset p = leb_ℤ (pos 0) p && leb_ℤ p (pos 65535)

abbrev pub IsValidConfig : KetchYamlProcessPortConfig → Type 0
IsValidConfig config =
    (is_port_or_unset config.port ≡ true) × (is_port_or_unset config.target_port ≡ true)

to_int32-is_port : (p : ℤ) → is_port p ≡ true → to_int32 p ≡ p
unfolding to_int32
to_int32-is_port (pos n) h = ground (arith, h)
to_int32-is_port (negsuc n) h = ground (arith, h)

is_port-first_port :
    (a b d : ℤ)
    → is_port_or_unset a ≡ true
    → is_port_or_unset b ≡ true
    → is_port d ≡ true
    → is_port (first_port a b d) ≡ true
is_port-first_port a b d ha hb hd = ground (arith, ha, hb, hd)

-- The service's ports, and those of the container that they lead to.
ports_lem :
    (d : ℤ) (i : ℕ) (configs : List KetchYamlProcessPortConfig)
    → is_port d ≡ true
    → All IsValidConfig configs
    → (map (λ s. s.target_port) (service_ports d i configs) ≡ container_ports d configs)
      × All
          (λ s. (is_port s.port ≡ true) × (is_port s.target_port ≡ true))
          (service_ports d i configs)
unfolding service_ports container_ports
ports_lem d i [] hd h = (refl, tt)
ports_lem d i (c ∷ cs) hd ((p, t), h) =
    let (same, good) = ports_lem d (suc i) cs hd h in
    let first = is_port-first_port c.port c.target_port d p t hd in
    let target = is_port-first_port c.target_port c.port d t p hd in
    (
      ap (λ p. p ∷ map (λ s. s.target_port) (service_ports d (suc i) cs))
            (sym (to_int32-is_port _ target))
          ∙ ap (◌∷◌ (to_int32 (first_port c.target_port c.port d))) same,
      (
        (
          ap is_port {y = first_port c.port c.target_port d} (to_int32-is_port _ first) ∙ first,
          target,
        ),
        good,
      ),
    )

-- When the ports of a process are valid or left out and the default port is valid, its service has the
-- container's ports as its target ports, in their order, and all its port numbers are from 1 to 65535.
pub service_ports_for_process-container_ports :
    (c : Configurator) (process : String)
    → is_port c.default_port ≡ true
    → All IsValidConfig (process_port_configs c process)
    → (map (λ s. s.target_port) (service_ports_for_process c process)
        ≡ container_ports_for_process c process)
      × All
          (λ s. (is_port s.port ≡ true) × (is_port s.target_port ≡ true))
          (service_ports_for_process c process)
unfolding service_ports_for_process container_ports_for_process
service_ports_for_process-container_ports c process h valid =
    ports_lem c.default_port 0 (process_port_configs c process) h valid
