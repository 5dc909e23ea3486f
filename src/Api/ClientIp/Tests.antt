-- ===== src/Api/ClientIp/Tests.antt =====
-- The address of concrete requests.
use deploy_monster.Prelude.{◌≡◌, refl, Bool, true, false, [], ◌∷◌, Option, none, some, String}
use deploy_monster.Prelude.Bytes.{
  Bytes, bytes, has_prefix, count, contains, trim_space, before_comma,
}
use deploy_monster.Api.ClientIp.{Request, safe_client_ip, strip_port}
use deploy_monster.Api.ClientIp.Identity.{counted_under_host, real_ip_wins}

-- A text is an address if it is not empty; addresses that start with 10 are internal.
abbrev verbatim : Bytes → Option Bytes
verbatim [] = none
verbatim (c ∷ s) = some (c ∷ s)

abbrev internal : Bytes → Bool
internal s = has_prefix s (bytes "10.")

abbrev from : String → String → String → Request
from remote real forwarded = record {
  path = bytes "/api/v1/apps";
  remote_addr = bytes remote;
  x_real_ip = bytes real;
  x_forwarded_for = bytes forwarded;
}

port_left_out :
    safe_client_ip verbatim internal (from "203.0.113.7:4001" "" "198.51.100.1") false
    ≡ bytes "203.0.113.7"
unfolding count contains
port_left_out =
    counted_under_host verbatim internal (from "203.0.113.7:4001" "" "198.51.100.1")
      (bytes "203.0.113.7") (bytes "4001") refl refl refl refl refl

real_ip_wins_example :
    safe_client_ip verbatim internal (from "203.0.113.7:4001" "198.51.100.9" "") false
    ≡ bytes "198.51.100.9"
unfolding trim_space
real_ip_wins_example =
    real_ip_wins verbatim internal (from "203.0.113.7:4001" "198.51.100.9" "") false
      (bytes "198.51.100.9") refl refl refl

-- A bracketed address keeps its port; a forwarded address counts if it is not internal.
brackets_kept : strip_port (bytes "[2001:db8::1]:443") ≡ bytes "[2001:db8::1]:443"
unfolding strip_port contains
brackets_kept = refl

forwarded_trusted :
    safe_client_ip verbatim internal (from "10.0.0.1:80" "" "198.51.100.1, 10.0.0.2") true
    ≡ bytes "198.51.100.1"
unfolding safe_client_ip trim_space before_comma has_prefix
forwarded_trusted = refl

internal_ignored :
    safe_client_ip verbatim internal (from "10.0.0.1:80" "" "10.9.9.9") true ≡ bytes "10.0.0.1"
unfolding safe_client_ip trim_space before_comma has_prefix strip_port contains count
internal_ignored = refl
