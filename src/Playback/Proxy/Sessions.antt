-- ===== src/Playback/Proxy/Sessions.antt =====
-- internal/playback/media_proxy.go: the table of sessions behind the local URLs. A lifetime, the
-- context of a plan, is the number of the plan and the instant at which its timer ends it; it is
-- cancelled exactly where its plan is no longer the one whose cancel function the proxy holds. The
-- Go map is the list of its entries, and `rand.Read` a sequence of tokens, `none` for an error.
pub mod Room
pub mod Guarded
use Prim.Native.String.{◌++◌ as append}
use hummtube.Base.{
  ℕ, zero, suc, ◌+◌, ◌*◌, ◌-◌, ℤ, pos, pos_part, leb_ℤ, ◌+ℤ◌, Bool, true, false, not, ◌&&◌, ◌||◌,
  ◌==◌, ltb, leb, Char, code, String, List, [], ◌∷◌, Option, none, some, ◌⊎◌, inl, inr, is_empty,
  str_eq, length, contains, Bytes, if◌then◌else◌,
}
use hummtube.Domain.Vocabulary.{Time, Duration, hours, before, is_zero_time, to_lower}
use hummtube.Domain.Playback.{ResolvedStream}
use hummtube.Iptv.Network.{Net, has_suffix}
use hummtube.Playback.Cache.{media_url_expiry}
use hummtube.Playback.Ytdlp.Headers.{Headers, sanitize_playback_headers}
use hummtube.Playback.Proxy.Target.{MediaUrl, TargetError, validate_media_target}

abbrev pub media_proxy_path_prefix : String
media_proxy_path_prefix = "/api/media/"

abbrev pub media_proxy_default_ttl : Duration
media_proxy_default_ttl = hours 6

abbrev pub media_proxy_max_sessions : ℕ
media_proxy_max_sessions = 128

abbrev pub media_proxy_token_bytes : ℕ
media_proxy_token_bytes = 24

pub record Lifetime : Type 0 where
  pub plan : ℕ
  pub deadline : Time

-- `mediaProxySession`
pub record Session : Type 0 where
  pub target : MediaUrl
  pub headers : Headers
  pub expires_at : Time
  pub is_hls : Bool
  pub last_used : Time
  pub observed : Bool
  pub lifetime : Lifetime

abbrev pub Table : Type 0
Table = List (String × Session)

-- `MediaProxy`; `plans` and `drawn` number the plans and the tokens that were asked for.
pub record MediaProxy : Type 0 where
  pub sessions : Table
  pub current_plan : Option ℕ
  pub local_base_url : String
  pub allow_private_network : Bool
  pub max_sessions : ℤ
  pub plans : ℕ
  pub drawn : ℕ

-- What `net/url` says of a reference in a manifest; `text` is the reference itself.
pub record Reference : Type 0 where
  pub scheme : String
  pub text : String

-- `upper_case` is `strings.ToUpper`, which reads the tables of package `unicode`.
pub record ProxyEnv : Type 0 where
  pub upper_case : Bytes → Bytes
  pub net : Net
  pub parse : String → Option MediaUrl
  pub query : String → Option (String → String)
  pub random : ℕ → Option String
  pub parse_reference : Bytes → Option Reference
  pub resolve_reference : MediaUrl → Reference → String

pub data ProxyError : Type 0 where
  bad_target : TargetError → ProxyError
  expired no_token ended too_many bad_manifest bad_reference open_attribute : ProxyError
  -- No error, but a panic
  slice_out_of_range : ProxyError

abbrev pub is_plan : ℕ → Option ℕ → Bool
is_plan n none = false
is_plan n (some m) = n == m

-- `lifetime.Err() != nil`
abbrev pub is_over : Time → Option ℕ → Lifetime → Bool
is_over now current l = not (is_plan l.plan current) || not (before now l.deadline)

unfoldable pub find_session : String → Table → Option Session
find_session token [] = none
find_session token ((t, s) ∷ table) = if str_eq t token then some s else find_session token table

unfoldable pub delete_session : String → Table → Table
delete_session token [] = []
delete_session token ((t, s) ∷ table) =
    let rest = delete_session token table in if str_eq t token then rest else (t, s) ∷ rest

unfoldable pub put_session : String → Session → Table → Table
unfolding delete_session
put_session token s table = (token, s) ∷ delete_session token table

-- The entry may still be served.
abbrev pub is_open : Time → Option ℕ → Session → Bool
is_open now current s = before now s.expires_at && not (is_over now current s.lifetime)

-- The first loop of `pruneLocked`
unfoldable pub drop_closed : Time → Option ℕ → Table → Table
drop_closed now current [] = []
drop_closed now current ((t, s) ∷ table) =
    let rest = drop_closed now current table in
    if is_open now current s then (t, s) ∷ rest else rest

-- The token that was used least recently, the first such in the order of the range.
unfoldable pub oldest_token : String → Time → Table → String
oldest_token token oldest [] = token
oldest_token token oldest ((t, s) ∷ table) =
    let older = is_empty token || before s.last_used oldest in
    oldest_token (if older then t else token) (if older then s.last_used else oldest) table

-- `maxSessions`, or the default where it is not positive
unfoldable pub limit_of : ℤ → ℕ
limit_of max_sessions =
    if leb_ℤ max_sessions (pos 0) then media_proxy_max_sessions else pos_part max_sessions

-- The second loop of `pruneLocked`, for at most `fuel` turns
unfoldable pub make_room : ℕ → ℕ → Table → Table
unfolding oldest_token delete_session
make_room zero limit table = table
make_room (suc fuel) limit table =
    let token = oldest_token "" (pos 0) table in
    let rest = make_room fuel limit (delete_session token table) in
    if ltb (length table) limit || is_empty token then table else rest

-- `pruneLocked`; a turn deletes an entry, so there are no more turns than entries.
unfoldable pub prune_locked : Time → MediaProxy → MediaProxy
unfolding drop_closed limit_of make_room
prune_locked now p =
    let table = drop_closed now p.current_plan p.sessions in
    record p { sessions = make_room (length table) (limit_of p.max_sessions) table }

-- A deadline that is known, if it is earlier.
unfoldable pub capped : Time → Time → Time
capped expires candidate =
    if not (is_zero_time candidate) && before candidate expires then candidate else expires

abbrev pub Step : Type 0 → Type 0
Step A = (ProxyError ⊎ A) × MediaProxy

module _ (env : ProxyEnv) (now : Time) where
  unfoldable pub stream_expiry : Time → String → Time
  unfolding capped media_url_expiry
  stream_expiry plan_expiry url =
      capped (capped (now +ℤ media_proxy_default_ttl) plan_expiry) (media_url_expiry env.query url)

  unfoldable pub new_session : Lifetime → ResolvedStream → Time → MediaUrl → Session
  unfolding sanitize_playback_headers has_suffix to_lower
  new_session lifetime stream expires target = record {
    target = target;
    headers = sanitize_playback_headers env.net.table stream.headers;
    expires_at = expires;
    is_hls = has_suffix (to_lower env.net.table target.path) ".m3u8";
    last_used = now;
    observed = false;
    lifetime = lifetime;
  }

  -- The path of a session's local URL
  unfoldable pub local_path : String → Session → String
  local_path token s =
      let path = append media_proxy_path_prefix token in
      if s.is_hls then append path ".m3u8" else path

  -- What follows the draw of a token.
  unfoldable pub opened : Session → MediaProxy → Option String → Step ResolvedStream
  unfolding prune_locked put_session local_path
  opened s p none = (inl no_token, p)
  opened s p (some token) =
      let pruned = prune_locked now p in
      if is_over now p.current_plan s.lifetime then (inl ended, p) else (
        inr (record { url = append p.local_base_url (local_path token s); headers = [] }),
        record pruned { sessions = put_session token s pruned.sessions },
      )

  unfoldable pub after_target :
      Lifetime → ResolvedStream → Time → MediaProxy → TargetError ⊎ MediaUrl → Step ResolvedStream
  unfolding stream_expiry new_session opened
  after_target lifetime stream plan_expiry p (inl e) = (inl (bad_target e), p)
  after_target lifetime stream plan_expiry p (inr target) =
      let expires = stream_expiry plan_expiry stream.url in
      if not (before now expires)
      then (inl expired, p)
      else opened (new_session lifetime stream expires target) (record p { drawn = suc p.drawn })
          (env.random p.drawn)

  -- `wrapStream`
  unfoldable pub wrap_stream : Lifetime → ResolvedStream → Time → MediaProxy → Step ResolvedStream
  unfolding after_target validate_media_target
  wrap_stream lifetime stream plan_expiry p =
      after_target lifetime stream plan_expiry p
        (validate_media_target env.net env.parse stream.url p.allow_private_network)
