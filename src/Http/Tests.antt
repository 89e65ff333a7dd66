-- ===== src/Http/Tests.antt =====
-- Requests with and without the key.
use rymevisor.Common.{◌≡◌, refl, ◌↔◌, [], str_eq, if◌then◌else◌}
use rymevisor.Net.{codes}
use rymevisor.Http.{Request, passed, replied, require_api_key}
use rymevisor.Http.Access.{IsAdmitted, require_api_key_iff}

abbrev console : Request
console = record {
  method = "GET";
  path = "/ws/console";
  header = λ name. if str_eq name "Sec-WebSocket-Protocol" then codes "binary, Bearer k1" else [];
  query = λ name. [];
}

unconfigured : require_api_key [] console ≡ replied 500
unfolding require_api_key
unconfigured = refl

wrong_key : require_api_key (codes "k2") console ≡ replied 401
unfolding require_api_key
wrong_key = refl

require_api_key_iff_example :
    (require_api_key (codes "k1") console ≡ passed console) ↔ IsAdmitted (codes "k1") console
require_api_key_iff_example = require_api_key_iff (codes "k1") console
