-- ===== src/Playback/Ytdlp/Headers.antt =====
-- internal/playback/explicit_ytdlp.go: the HTTP headers of a stream. A Go map is the list of its
-- entries, in whatever order it is ranged over; `net/url` is a parameter.
use Prim.Native.String.{len}
use hummtube.Base.{
  Bool, true, false, not, ◌&&◌, ◌||◌, ◌==◌, ltb, code, String, List, [], ◌∷◌, Option, some, any,
  all, keep, length, str_eq, is_empty, trim_space, if◌then◌else◌,
}
use hummtube.Domain.Vocabulary.{CaseTable, to_lower, equal_fold}
use hummtube.Domain.Playback.{ResolvedStream}
use hummtube.Playback.Ytdlp.Format.{Format}

abbrev pub Headers : Type 0
Headers = List (String × String)

-- `strings.ContainsAny(value, "\r\n")`
unfoldable pub has_line_break : String → Bool
has_line_break String.[] = false
has_line_break (String.◌∷◌ c s) = code c == 13 || code c == 10 || has_line_break s

abbrev is_one_of : String → List String → Bool
is_one_of value terms = any (λ term. str_eq value term) terms

abbrev pub Url : Type 0
Url = String × String

module _ (table : CaseTable) where
  unfoldable pub is_allowed_name : String → Bool
  is_allowed_name name =
      is_one_of (to_lower table (trim_space name)) (
        "accept" ∷ "accept-encoding" ∷ "accept-language" ∷ "origin" ∷ "referer" ∷ "user-agent" ∷ [])

  unfoldable pub is_allowed_header : String × String → Bool
  unfolding is_allowed_name has_line_break
  is_allowed_header (name, value) =
      if is_allowed_name name then not (ltb 4096 (len value) || has_line_break value) else false

  -- `sanitizePlaybackHeaders`; nil and the empty map are the empty list.
  unfoldable pub sanitize_playback_headers : Headers → Headers
  unfolding is_allowed_header
  sanitize_playback_headers headers = keep is_allowed_header headers

  -- `resolvedStreamFromFormat`
  unfoldable pub resolved_stream_from_format : Format → ResolvedStream
  unfolding sanitize_playback_headers
  resolved_stream_from_format f = record {
    url = f.url;
    headers = sanitize_playback_headers f.http_headers;
  }

  -- The inner loop of `sameHTTPHeaders`: the first entry of that name decides.
  unfoldable pub matches_header : String → String → Headers → Bool
  unfolding equal_fold
  matches_header name value [] = false
  matches_header name value ((n, v) ∷ second) =
      let rest = matches_header name value second in
      if equal_fold table name n then str_eq value v else rest

  -- `sameHTTPHeaders`
  unfoldable pub same_http_headers : Headers → Headers → Bool
  unfolding matches_header
  same_http_headers first second =
      if length first == length second
      then all (λ h. matches_header h.0 h.1 second) first
      else false

  -- `safeCrossOriginHeader`
  unfoldable pub safe_cross_origin_header : String → Bool
  safe_cross_origin_header name =
      is_one_of (to_lower table name)
        ("accept" ∷ "accept-encoding" ∷ "accept-language" ∷ "user-agent" ∷ [])

  -- The scheme and the host of a URL that `url.Parse` takes.
  module _ (parse : String → Option Url) where
    abbrev same_origin : Option Url → Option Url → Bool
    same_origin (some (s, h)) (some (t, k)) =
        if is_empty h || is_empty k then false else equal_fold table s t && equal_fold table h k
    same_origin _ _ = false

    -- `sameHTTPOrigin`
    unfoldable pub same_http_origin : String → String → Bool
    unfolding equal_fold
    same_http_origin first second = same_origin (parse first) (parse second)

    -- `compatibleCrossOriginHeaders`
    unfoldable pub compatible_cross_origin_headers : String → String → Headers → Headers → Bool
    unfolding same_http_origin safe_cross_origin_header
    compatible_cross_origin_headers first_url second_url first second =
        if same_http_origin first_url second_url
        then true
        else all (λ h. safe_cross_origin_header h.0) first
          && all (λ h. safe_cross_origin_header h.0) second
