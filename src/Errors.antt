-- ===== src/Errors.antt =====
-- services/orchestrator/error_classifier.py. A failure is None or the text that `str` makes of it;
-- `lower` is Python's `str.lower`.
pub mod Precedence
mod Examples
use labmate.Common.{
  Bool, true, false, Option, none, some, List, [], ◌∷◌, if◌then◌else◌, Text, codes, is_empty,
  contains_any, contains, strip,
}

pub data ErrorClass : Type 0 where
  terminal_dependency terminal_credential terminal_network : ErrorClass
  rate_limited transient retryable : ErrorClass

-- `cls in TERMINAL_CLASSES`
unfoldable pub is_terminal : ErrorClass → Bool
is_terminal terminal_dependency = true
is_terminal terminal_credential = true
is_terminal terminal_network = true
is_terminal _ = false

abbrev pub rate_markers : List Text
rate_markers =
    codes "429" ∷ codes "rate limit" ∷ codes "rate-limit" ∷ codes "too many requests" ∷ []

abbrev pub credential_markers : List Text
credential_markers =
    codes "api key"
    ∷ codes "api_key"
    ∷ codes "apikey"
    ∷ codes "credential"
    ∷ codes "unauthorized"
    ∷ codes "401"
    ∷ codes "403"
    ∷ codes "forbidden"
    ∷ codes "authentication failed"
    ∷ codes "auth failed"
    ∷ []

abbrev pub network_markers : List Text
network_markers =
    codes "connection refused"
    ∷ codes "econnrefused"
    ∷ codes "network is unreachable"
    ∷ codes "name resolution"
    ∷ codes "enotfound"
    ∷ codes "getaddrinfo"
    ∷ codes "network"
    ∷ codes "dns"
    ∷ []

abbrev pub dependency_markers : List Text
dependency_markers =
    codes "skillunavailable"
    ∷ codes "unavailable"
    ∷ codes "not available"
    ∷ codes "no such"
    ∷ codes "not found"
    ∷ codes "missing"
    ∷ codes "docker"
    ∷ codes "unshare"
    ∷ codes "eperm"
    ∷ codes "enoent"
    ∷ codes "nsjail"
    ∷ codes "bwrap"
    ∷ codes "gvisor"
    ∷ codes "sandbox"
    ∷ codes "permission denied"
    ∷ []

abbrev pub timeout_markers : List Text
timeout_markers = codes "timed out" ∷ codes "timeout" ∷ []

-- `_PATTERNS`, in order.
unfoldable pub patterns : List (ErrorClass × List Text)
patterns =
    (rate_limited, rate_markers)
    ∷ (terminal_credential, credential_markers)
    ∷ (terminal_network, network_markers)
    ∷ (terminal_dependency, dependency_markers)
    ∷ (transient, timeout_markers)
    ∷ []

-- The loop over `_PATTERNS`.
unfoldable pub first_class : Text → List (ErrorClass × List Text) → ErrorClass
first_class low [] = retryable
first_class low ((cls, substrings) ∷ more) =
    if contains_any substrings low then cls else first_class low more

module _ (lower : Text → Text) where
  unfoldable pub classify_error : Option Text → ErrorClass
  unfolding first_class patterns strip
  classify_error none = retryable
  classify_error (some error) =
      let t = strip error in if is_empty t then retryable else first_class (lower t) patterns
