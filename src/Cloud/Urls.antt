-- ===== src/Cloud/Urls.antt =====
-- What the cloud backends use of net/url, and the test of an endpoint that backend/minio/minio.go and
-- backend/ks3/ks3.go share.
use sharp_store.Prelude.{
  [], Bool, true, false, none, some, ◌||◌, ◌&&◌, not, List, ◌∷◌, ◌++◌, Text, text, same, is_empty,
  if◌then◌else◌, ◌==◌,
}
use sharp_store.Prelude.Texts.{any_text}
use sharp_store.Errors.{Outcome, Result, ok, err, message}

-- `U` is url.URL.
pub record Urls (U : Type 0) : Type 0 where
  pub parse : Text → Result U
  pub parse_request_uri : Text → Result U
  pub scheme : U → Text
  pub host : U → Text
  pub hostname : U → Text
  -- the URL with another scheme, as text
  pub string_with_scheme : Text → U → Text

-- strings.HasPrefix(s, p)
unfoldable pub starts_with : Text → Text → Bool
starts_with [] s = true
starts_with (c ∷ p) [] = false
starts_with (c ∷ p) (d ∷ s) = c == d && starts_with p s

-- strings.Contains(s, p)
unfoldable pub contains_text : Text → Text → Bool
unfolding starts_with
contains_text p [] = is_empty p
contains_text p (d ∷ s) = starts_with p (d ∷ s) || contains_text p s

-- strings.HasSuffix(s, p)
unfoldable pub ends_with : Text → Text → Bool
ends_with p [] = is_empty p
ends_with p (d ∷ s) = same (d ∷ s) p || ends_with p s

-- The characters that unicode.IsSpace holds of, in UTF-8.
abbrev pub spaces : List Text
spaces =
    (9 ∷ [])
    ∷ (10 ∷ [])
    ∷ (11 ∷ [])
    ∷ (12 ∷ [])
    ∷ (13 ∷ [])
    ∷ (32 ∷ [])
    ∷ (194 ∷ 133 ∷ [])
    ∷ (194 ∷ 160 ∷ [])
    ∷ (225 ∷ 154 ∷ 128 ∷ [])
    ∷ (226 ∷ 128 ∷ 128 ∷ [])
    ∷ (226 ∷ 128 ∷ 129 ∷ [])
    ∷ (226 ∷ 128 ∷ 130 ∷ [])
    ∷ (226 ∷ 128 ∷ 131 ∷ [])
    ∷ (226 ∷ 128 ∷ 132 ∷ [])
    ∷ (226 ∷ 128 ∷ 133 ∷ [])
    ∷ (226 ∷ 128 ∷ 134 ∷ [])
    ∷ (226 ∷ 128 ∷ 135 ∷ [])
    ∷ (226 ∷ 128 ∷ 136 ∷ [])
    ∷ (226 ∷ 128 ∷ 137 ∷ [])
    ∷ (226 ∷ 128 ∷ 138 ∷ [])
    ∷ (226 ∷ 128 ∷ 168 ∷ [])
    ∷ (226 ∷ 128 ∷ 169 ∷ [])
    ∷ (226 ∷ 128 ∷ 175 ∷ [])
    ∷ (226 ∷ 129 ∷ 159 ∷ [])
    ∷ (227 ∷ 128 ∷ 128 ∷ [])
    ∷ []

-- `s != strings.TrimSpace(s)`
abbrev pub is_padded : Text → Bool
is_padded s = any_text (λ p. starts_with p s || ends_with p s) spaces

abbrev pub bad_endpoint : Outcome
bad_endpoint = some (message "endpoint must be a host or host:port without a URL scheme" [])

-- `http` and `https` are the schemes that are allowed.
abbrev pub is_http_scheme : Text → Bool
is_http_scheme s = same s (text "http") || same s (text "https")

module _ {U : Type 0} (urls : Urls U) where
  abbrev pub host_error : Text → Result U → Outcome
  host_error endpoint (err e) = bad_endpoint
  host_error endpoint (ok u) =
      if not (same (urls.host u) endpoint) || is_empty (urls.hostname u) then bad_endpoint else none

  -- validateEndpoint
  unfoldable pub validate_endpoint : Text → Outcome
  unfolding starts_with ends_with contains_text
  validate_endpoint endpoint =
      if is_empty endpoint
      then some (message "endpoint is required" [])
      else if is_padded endpoint || contains_text (text "://") endpoint
      then bad_endpoint
      else host_error endpoint (urls.parse (text "http://" ++ endpoint))

  abbrev pub parsed_as_http : Result U → Bool
  parsed_as_http (ok u) = same (urls.scheme u) (text "http")
  parsed_as_http (err e) = false

  -- usesHTTP
  unfoldable pub uses_http : Text → Bool
  uses_http endpoint = parsed_as_http (urls.parse endpoint)
