-- ===== src/Playback/Proxy/Access.antt =====
-- internal/playback/media_proxy.go: the lookup of a session by the path of a request.
pub mod Served
pub mod Tokens
use hummtube.Base.{
  ℕ, suc, ◌*◌, Bool, true, false, not, ◌&&◌, ◌||◌, ◌==◌, leb, code, Char, String, Option, none,
  some, is_empty, str_eq, contains, rune_count, if◌then◌else◌,
}
use hummtube.Domain.Vocabulary.{Time, before}
use hummtube.Playback.Proxy.Sessions.{
  MediaProxy, Session, Table, find_session, delete_session, put_session, is_over, is_open,
  media_proxy_path_prefix, media_proxy_token_bytes,
}

-- What follows a prefix; `none` where the text does not begin with it.
unfoldable pub after_prefix : String → String → Option String
after_prefix s String.[] = some s
after_prefix String.[] (String.◌∷◌ d t) = none
after_prefix (String.◌∷◌ c s) (String.◌∷◌ d t) =
    let rest = after_prefix s t in if code c == code d then rest else none

-- `strings.TrimSuffix`, for a suffix that is not empty
unfoldable pub trim_suffix : String → String → String
trim_suffix String.[] t = String.[]
trim_suffix (String.◌∷◌ c s) t =
    let rest = trim_suffix s t in if str_eq (String.◌∷◌ c s) t then String.[] else String.◌∷◌ c rest

abbrev pub is_between : ℕ → ℕ → Char → Bool
is_between low high c = leb low (code c) && leb (code c) high

-- `hex.DecodeString` reads the text, whose length is even.
unfoldable pub is_hex : String → Bool
is_hex String.[] = true
is_hex (String.◌∷◌ c s) =
    (is_between b'0' b'9' c || is_between b'a' b'f' c || is_between b'A' b'F' c) && is_hex s

abbrev pub checked_token : String → Option String
checked_token value =
    if rune_count value == media_proxy_token_bytes * 2 && is_hex value then some value else none

abbrev token_after : Option String → Option String
token_after none = none
token_after (some value) =
    if contains value "/" then none else checked_token (trim_suffix value ".m3u8")

-- `parseMediaToken`
unfoldable pub parse_media_token : String → Option String
unfolding after_prefix contains trim_suffix rune_count is_hex
parse_media_token path = token_after (after_prefix path media_proxy_path_prefix)

abbrev pub with_sessions : MediaProxy → Table → MediaProxy
with_sessions p table = record p { sessions = table }

abbrev used : Time → String → MediaProxy → Option Session → Option Session × MediaProxy
used now token p none = (none, with_sessions p (delete_session token p.sessions))
used now token p (some s) =
    let s' = record s { last_used = now } in
    if is_open now p.current_plan s
    then (some s', with_sessions p (put_session token s' p.sessions))
    else (none, with_sessions p (delete_session token p.sessions))

-- `session`
unfoldable pub session : Time → String → MediaProxy → Option Session × MediaProxy
unfolding find_session delete_session put_session
session now token p = used now token p (find_session token p.sessions)

abbrev observing : Time → String → MediaProxy → Option Session → Bool × MediaProxy
observing now token p none = (false, p)
observing now token p (some s) =
    if is_over now p.current_plan s.lifetime
    then (false, with_sessions p (delete_session token p.sessions))
    else if s.observed
    then (false, p)
    else (true, with_sessions p (put_session token (record s { observed = true }) p.sessions))

-- `markSessionObserved`
unfoldable pub mark_session_observed : Time → String → MediaProxy → Bool × MediaProxy
unfolding find_session delete_session put_session
mark_session_observed now token p = observing now token p (find_session token p.sessions)
