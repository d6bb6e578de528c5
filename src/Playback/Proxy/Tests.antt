-- ===== src/Playback/Proxy/Tests.antt =====
-- The theorems on the proxy of media at concrete inputs.
use Prim.Native.String.{◌++◌ as append}
use hummtube.Base.{
  ◌≡◌, refl, str_eq, ap, sym, some-inj, true, false, String, List, [], ◌∷◌, none, some, ◌⊎◌, inl,
  inr, pos, Bytes, utf8, take, leb, ◌&&◌, ◌-◌, ◌==◌, ◌++◌, ℕ, starts_with, index_of, All,
  has_prefix, if◌then◌else◌, is_empty,
}
use hummtube.Domain.Vocabulary.{CaseTable, hours, playback_mode_resolved_media}
use hummtube.Domain.Playback.{ResolvedStream, PlaybackPlan}
use hummtube.Iptv.Network.{v4, Net}
use hummtube.Playback.Proxy.Target.{MediaUrl, dial_media}
use hummtube.Playback.Proxy.Target.Safety.{IsPublicMedia, EndsPublicMedia, dial_media-IsPublicMedia}
use hummtube.Playback.Proxy.Sessions.{
  Session, MediaProxy, ProxyEnv, ProxyError, new_session, stream_expiry, wrap_stream,
  slice_out_of_range, Step,
}
use hummtube.Playback.Proxy.Sessions.Guarded.{IsRandom, IsSafe, IsSafeStep}
use hummtube.Playback.Proxy.Wrap.{wrap_plan}
use hummtube.Playback.Proxy.Wrap.Local.{IsLocalPlan, wrap_plan-IsLocalPlan}
use hummtube.Playback.Proxy.Hls.{cut_at, rewrite_hls_attributes}
use hummtube.Playback.Proxy.Serve.{Request, ServeEnv}
use hummtube.Playback.Proxy.Calls.{
  Call, wrapping, serving, rewriting, revoking, new_media_proxy, after_calls,
}
use hummtube.Playback.Proxy.Calls.Safe.{after_calls-IsSafe}

abbrev caseless : CaseTable
caseless = record { lower = λ c. c; upper = λ c. c; fold = λ c. c }

abbrev some_token : String
some_token = "0123456789abcdef0123456789abcdef0123456789abcdef"

abbrev net : Net
net = record {
  table = caseless;
  parse_addr = λ _. none;
  lookup = λ _. some (v4 0x08080808 ∷ []);
  dial = λ _ _. true;
}

abbrev cdn : MediaUrl
cdn = record {
  scheme = "https";
  hostname = "cdn.example";
  path = "/video.mp4";
  fragment = "";
  has_user = false;
  rest = "://cdn.example/video.mp4";
}

-- The upper case of ASCII and of U+0250, in UTF-8 0xc9 0x90 and 0xe2 0xb1 0xaf
unfoldable upper_byte : ℕ → Bytes
upper_byte b =
    if b == 0xc9
    then 0xe2 ∷ 0xb1 ∷ []
    else if b == 0x90
    then 0xaf ∷ []
    else if leb b'a' b && leb b b'z'
    then (b - 32) ∷ []
    else b ∷ []

unfoldable grown : Bytes → Bytes
unfolding upper_byte
grown [] = []
grown (b ∷ s) = upper_byte b ++ grown s

abbrev env : ProxyEnv
env = record {
  net = net;
  parse = λ s. if has_prefix s "https://cdn" then some cdn else none;
  query = λ _. none;
  random = λ _. some some_token;
  upper_case = grown;
  parse_reference = λ s.
      if starts_with s (utf8 "skd")
      then some (record { scheme = "skd"; text = "" })
      else some (record { scheme = ""; text = "" });
  resolve_reference = λ _ _. "https://cdn/v";
}

env-IsRandom : IsRandom env
env-IsRandom n token h = ap is_empty (sym (some-inj h))

abbrev stream : ResolvedStream
stream = record { url = "https://cdn/v"; headers = ("User-Agent", "tube") ∷ [] }

abbrev plan : PlaybackPlan
plan = record {
  mode = playback_mode_resolved_media;
  load_target = "";
  options = [];
  primary = stream;
  audio = some stream;
  audio_only = none;
  variants = [];
  subtitles = [];
  metadata = record { video_id = "v"; title = "V"; duration = pos 0 };
  expires_at = pos 0;
}

abbrev base : String
base = "http://127.0.0.1:8080"

abbrev proxy : MediaProxy
proxy = new_media_proxy false base (pos 2)

dial_media-IsPublicMedia_example :
    All IsPublicMedia (dial_media net "cdn.example" "443").0
    × EndsPublicMedia (dial_media net "cdn.example" "443").1
dial_media-IsPublicMedia_example = dial_media-IsPublicMedia net "cdn.example" "443"

after_calls-IsSafe_example : IsSafe env false base (pos 2) (
    after_calls env
      (wrapping (hours 1) false false plan ∷ serving (hours 2) some_token ∷ revoking ∷ [])
      (new_media_proxy false base (pos 2)))
after_calls-IsSafe_example =
    after_calls-IsSafe env false base (pos 2)
      (wrapping (hours 1) false false plan ∷ serving (hours 2) some_token ∷ revoking ∷ [])
      env-IsRandom

wrap_plan-IsLocalPlan_example :
    IsSafeStep env false base
      (pos 2)
      (IsLocalPlan base)
      (wrap_plan env (hours 1) false false plan proxy)
unfolding after_calls
wrap_plan-IsLocalPlan_example =
    wrap_plan-IsLocalPlan env false base (pos 2) env-IsRandom (hours 1) false false plan proxy refl
      (after_calls-IsSafe env false base (pos 2) [] env-IsRandom)

abbrev one_session : Session
one_session =
    new_session env (hours 1) (record { plan = 0; deadline = hours 3 }) stream
      (stream_expiry env (hours 1) (hours 3) "https://cdn/v") cdn

abbrev staged_proxy : MediaProxy
staged_proxy = record proxy { current_plan = some 0 }

abbrev first_opened : (ProxyError ⊎ ResolvedStream) × MediaProxy
first_opened =
    wrap_stream env (hours 1) (record { plan = 0; deadline = hours 3 }) stream (hours 3)
      staged_proxy

-- After the revocation a manifest is still rewritten under the old lifetime.
abbrev late_calls : List Call
late_calls =
    serving (hours 2) some_token
    ∷ rewriting (hours 2) (record { plan = 0; deadline = hours 3 }) cdn [] (hours 3)
        (utf8 "#EXTM3U\nv.ts\n")
    ∷ []

abbrev key_line : Bytes
key_line = utf8 "#EXT-X-KEY:URI=\"k\""

abbrev rewritten_line : Bytes → Step Bytes
rewritten_line line =
    rewrite_hls_attributes env (hours 1) (record { plan = 0; deadline = hours 3 }) cdn [] (hours 3)
      line staged_proxy

-- U+0250 has two bytes and its upper case three: the place of `URI=` moves out of the line.
growing_test : (rewritten_line (utf8 "#ɐURI=")).0 ≡ inl slice_out_of_range
unfolding rewrite_hls_attributes take grown utf8 index_of starts_with cut_at
growing_test = refl

skd_test : (rewritten_line (utf8 "#K:uri=\"skd://k\",A=1")).0 ≡ inr (utf8 "#K:uri=\"skd://k\",A=1")
unfolding rewrite_hls_attributes take grown utf8 index_of starts_with cut_at
skd_test = refl

abbrev some_request : Request
some_request = record {
  method = "GET";
  path = "/api/media/x";
  header = λ name. if str_eq name "Range" then "bytes=0-" else "";
}

abbrev server : ServeEnv
server = record {
  proxy = env;
  canonical = λ s. s;
  fetch = λ _ _ _. some (record { status = 206; body = some [] });
}
