-- ===== src/Errors/Examples.antt =====
-- Runs and instances for the error classifier.
use labmate.Common.{◌≡◌, refl, some, Text, codes, contains, ascii_lower}
use labmate.Errors.{classify_error, rate_limited, terminal_network}

abbrev refused : Text
refused = codes " Connection refused (host db) "

pool_is_rate_limited :
    classify_error ascii_lower (some (codes "HTTP 429 from connection pool: network"))
    ≡ rate_limited
unfolding classify_error contains ascii_lower
pool_is_rate_limited = refl

refused_is_network : classify_error ascii_lower (some refused) ≡ terminal_network
unfolding classify_error contains ascii_lower
refused_is_network = refl
