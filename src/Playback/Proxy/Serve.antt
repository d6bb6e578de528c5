-- ===== src/Playback/Proxy/Serve.antt =====
-- internal/playback/media_proxy.go: the handler of requests. The remote server is a function of the
-- request; `none` stands for an error. The bodies that are only copied are left out, and so are the
-- headers of the answer.
pub mod Sent
use Prim.Native.String.{◌++◌ as append}
use hummtube.Base.{
  ℕ, Bytes, Bool, true, false, not, ◌&&◌, ◌||◌, ltb, leb, String, List, [], ◌∷◌, Option, none, some,
  ◌⊎◌, inl, inr, is_empty, str_eq, trim_space, if◌then◌else◌,
}
use hummtube.Domain.Vocabulary.{Time}
use hummtube.Playback.Ytdlp.Headers.{Headers, has_line_break, is_allowed_name}
use hummtube.Playback.Proxy.Target.{MediaUrl}
use hummtube.Playback.Proxy.Sessions.{
  Session, MediaProxy, ProxyEnv, ProxyError, slice_out_of_range, Step,
}
use hummtube.Playback.Proxy.Access.{parse_media_token, session, mark_session_observed}
use hummtube.Playback.Proxy.Hls.{rewrite_hls_manifest}

-- The method, the path and the headers, as `Header.Get` gives them
pub record Request : Type 0 where
  pub method : String
  pub path : String
  pub header : String → String

-- The body is `none` where it cannot be read or is too long for a manifest.
pub record Response : Type 0 where
  pub status : ℕ
  pub body : Option Bytes

pub data Answer : Type 0 where
  method_not_allowed not_found bad_gateway : Answer
  status_only streamed : ℕ → Answer
  manifest : ℕ → Bytes → Answer
  -- The handler has panicked: the server gives up the connection.
  aborted : Answer

-- What it takes to serve: the canonical form of a header's name, and the remote server.
pub record ServeEnv : Type 0 where
  pub proxy : ProxyEnv
  pub canonical : String → String
  pub fetch : String → String → Headers → Option Response

module _ (env : ServeEnv) where
  -- `Header.Set`, on a canonical name
  unfoldable pub set_canonical : String → String → Headers → Headers
  set_canonical name value [] = (name, value) ∷ []
  set_canonical name value ((n, v) ∷ headers) =
      let rest = set_canonical name value headers in
      if str_eq n name then (name, value) ∷ headers else (n, v) ∷ rest

  unfoldable pub set_header : String → String → Headers → Headers
  unfolding set_canonical
  set_header name value headers = set_canonical (env.canonical name) value headers

  -- `copyRequestHeader`
  unfoldable pub copy_request_header : Request → String → Headers → Headers
  unfolding set_header has_line_break
  copy_request_header request name headers =
      let value = trim_space (request.header name) in
      if not (is_empty value) && not (has_line_break value)
      then set_header name value headers
      else headers

  -- `isProxyHeaderAllowed` for each header of the session
  unfoldable pub add_allowed : Headers → Headers → Headers
  unfolding set_header is_allowed_name
  add_allowed [] headers = headers
  add_allowed ((name, value) ∷ more) headers =
      add_allowed more (
        if is_allowed_name env.proxy.net.table name then set_header name value headers else headers)

  -- The headers of the request to the remote server
  unfoldable pub remote_headers : Request → Session → Headers
  unfolding copy_request_header add_allowed set_header
  remote_headers request s =
      let copied =
        copy_request_header request "Accept"
          (copy_request_header request "If-Range" (copy_request_header request "Range" [])) in
      set_header "Accept-Encoding" "identity" (add_allowed s.headers copied)

  abbrev pub is_success : ℕ → Bool
  is_success status = leb 200 status && ltb status 300

  abbrev rewritten : ℕ → Step Bytes → Answer × MediaProxy
  rewritten status (inl slice_out_of_range, p) = (aborted, p)
  rewritten status (inl e, p) = (bad_gateway, p)
  rewritten status (inr text, p) = (manifest status text, p)

  abbrev with_body : Time → Session → ℕ → MediaProxy → Option Bytes → Answer × MediaProxy
  with_body now s status p none = (bad_gateway, p)
  with_body now s status p (some body) =
      rewritten status
        (rewrite_hls_manifest env.proxy now s.lifetime s.target s.headers s.expires_at body p)

  -- What follows the answer of the remote server.
  unfoldable pub responded :
      Time → Request → String → Session → MediaProxy → Option Response → Answer × MediaProxy
  unfolding mark_session_observed rewrite_hls_manifest
  responded now request token s p none = (bad_gateway, p)
  responded now request token s p (some r) =
      let p' = (mark_session_observed now token p).1 in
      let hls = with_body now s r.status p' r.body in
      if not (is_success r.status) || str_eq request.method "HEAD"
      then (status_only r.status, p')
      else if s.is_hls
      then hls
      else (streamed r.status, p')

  abbrev pub with_session :
      Time → Request → String → Option Session × MediaProxy → Answer × MediaProxy
  with_session now request token (none, p) = (not_found, p)
  with_session now request token (some s, p) =
      responded now request token s p
        (env.fetch request.method (append s.target.scheme s.target.rest) (remote_headers request s))

  abbrev pub with_token : Time → Request → MediaProxy → Option String → Answer × MediaProxy
  with_token now request p none = (not_found, p)
  with_token now request p (some token) = with_session now request token (session now token p)

  -- `ServeHTTP`
  unfoldable pub serve_http : Time → Request → MediaProxy → Answer × MediaProxy
  unfolding parse_media_token session responded remote_headers
  serve_http now request p =
      if not (str_eq request.method "GET") && not (str_eq request.method "HEAD")
      then (method_not_allowed, p)
      else with_token now request p (parse_media_token request.path)
