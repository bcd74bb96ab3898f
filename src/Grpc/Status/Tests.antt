-- ===== src/Grpc/Status/Tests.antt =====
-- The SKI of one device.
use eebus_ha_bridge.Prelude.{◌≡◌, ◌↔◌, true, map, ok}
use eebus_ha_bridge.Ski.{Text, codes, to_upper, is_canonical_ski}
use eebus_ha_bridge.Grpc.Status.{require_explicit_ski}
use eebus_ha_bridge.Grpc.Status.Canonical.{require_explicit_ski-is_canonical_ski}

abbrev lower_case : Text
lower_case = codes "0123456789abcdef0123456789abcdef01234567"

require_explicit_ski-is_canonical_ski_example :
    (is_canonical_ski lower_case ≡ true)
    ↔ (require_explicit_ski lower_case ≡ ok (map to_upper lower_case))
require_explicit_ski-is_canonical_ski_example = require_explicit_ski-is_canonical_ski lower_case
