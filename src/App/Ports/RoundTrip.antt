-- ===== src/App/Ports/RoundTrip.antt =====
-- A port written in docker's format and read back.
use Prim.Native.String
use text.Mathlib.TextLemmas.{nil-append, cons-append}
use ketch.Base.{
  atoi, ℤ, ap, ◌∙◌, String, true, false, some, pos, beq_ℤ, ok, ◌≡◌, refl, itoa, atoi-itoa,
  all_numeric, itoa-numeric, InRange, ◌==◌, ◌&&◌, split_once, arith,
}
use ketch.App.{ExposedPort}
use ketch.App.Ports.{to_docker_format, new_exposed_port, to_upper}

split_once-numeric :
    (s t : String)
    → all_numeric s ≡ true
    → split_once "/" (String.◌++◌ s (String.◌++◌ "/" t)) ≡ some (s, t)
unfolding split_once
split_once-numeric String.[] t h = rw (nil-append, cons-append, nil-append) refl
split_once-numeric (String.◌∷◌ c s) t h = rw cons-append (ground (arith, split_once-numeric s t))

-- A text that splits into a number and a protocol.
new_exposed_port-parts :
    (s a b : String) (n : ℤ)
    → split_once "/" s ≡ some (a, b)
    → atoi a ≡ some n
    → new_exposed_port s ≡ ok (record { port = n; protocol = to_upper b })
unfolding new_exposed_port
new_exposed_port-parts s a b n h k = rw (h, new_exposed_port, k) refl

-- A port with its protocol in upper case reads back, unless it is the empty port.
pub new_exposed_port-to_docker_format :
    (p : ExposedPort)
    → InRange p.port
    → to_upper p.protocol ≡ p.protocol
    → (beq_ℤ p.port (pos 0) && p.protocol == "") ≡ false
    → new_exposed_port (to_docker_format p) ≡ ok p
unfolding to_docker_format
new_exposed_port-to_docker_format p range up nonempty = rw nonempty (
    new_exposed_port-parts _ (itoa p.port) p.protocol p.port
      (split_once-numeric (itoa p.port) p.protocol (itoa-numeric p.port)) (atoi-itoa p.port range)
    ∙ ap (λ t. ok (record { port = p.port; protocol = t })) up)
