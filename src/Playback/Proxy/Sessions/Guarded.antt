-- ===== src/Playback/Proxy/Sessions/Guarded.antt =====
-- What holds of every session, and that the opening of a stream keeps it.
use Prim.Native.String.{◌++◌ as append}
use hummtube.Base.{
  All-weaken, ℕ, suc, ◌≡◌, ◌≤◌, refl, ap, ◌∙◌, ℤ, Bool, true, false, not, ◌&&◌, ◌||◌, String, [],
  Option, none, some, ◌⊎◌, inl, inr, All, all, all-keep, arith, Bool-cases, is_empty, length,
  trim_space,
}
use text.Mathlib.TextLemmas.{append_assoc}
use hummtube.Domain.Vocabulary.{Time, before, to_lower}
use hummtube.Domain.Playback.{ResolvedStream}
use hummtube.Playback.Ytdlp.Headers.{is_allowed_header, sanitize_playback_headers}
use hummtube.Playback.Proxy.Target.{
  MediaUrl, TargetError, is_http, is_private_host, checked_target, validate_media_target,
}
use hummtube.Playback.Proxy.Sessions.{
  Session, Lifetime, MediaProxy, ProxyEnv, Step, is_over, limit_of, prune_locked, put_session,
  local_path, media_proxy_path_prefix, new_session, stream_expiry, opened, after_target,
  wrap_stream,
}
use hummtube.Playback.Proxy.Sessions.Room.{
  IsNamed, All-put_session, All-prune_locked, prune_locked-room, length-delete_session-le,
}

-- Where the proxy may go: HTTP, no user in the URL, no fragment, and no private host unless these
-- are allowed.
abbrev pub IsTarget : ProxyEnv → Bool → MediaUrl → Type 0
IsTarget env allow u =
    (is_http u.scheme ≡ true)
    × ((u.has_user || not (is_empty u.fragment)) ≡ false)
    × ((not allow && is_private_host env.net u.hostname) ≡ false)

-- A token that is not empty, a target where the proxy may go, and headers that may be sent there.
abbrev pub IsGuarded : ProxyEnv → Bool → String × Session → Type 0
IsGuarded env allow e =
    (IsNamed e × IsTarget env allow e.1.target)
    × (all (is_allowed_header env.net.table) e.1.headers ≡ true)

-- The tokens that `rand.Read` gives are not empty.
abbrev pub IsRandom : ProxyEnv → Type 0
IsRandom env = (n : ℕ) (token : String) → env.random n ≡ some token → is_empty token ≡ false

abbrev pub IsAllowed : ProxyEnv → Bool → TargetError ⊎ MediaUrl → Type 0
IsAllowed env allow (inl e) = Unit
IsAllowed env allow (inr u) = IsTarget env allow u

checked_target-IsAllowed :
    (env : ProxyEnv) (allow : Bool) (parsed : Option MediaUrl)
    → IsAllowed env allow (checked_target env.net env.parse allow parsed)
unfolding checked_target
checked_target-IsAllowed env allow none = tt
checked_target-IsAllowed env allow (some u) = elim (Bool-cases (is_empty u.hostname)) [
  | inl y ↦ rw y tt
  | inr host ↦ rw host (elim (Bool-cases (is_http (to_lower env.net.table u.scheme))) [
    | inr n ↦ rw n tt
    | inl http ↦ rw http (elim (Bool-cases (u.has_user || not (is_empty u.fragment))) [
      | inl y ↦ rw y tt
      | inr plain ↦ rw plain (elim (Bool-cases (not allow && is_private_host env.net u.hostname)) [
        | inl y ↦ rw y tt
        | inr public ↦ rw public (http, plain, public)
      ])
    ])
  ])
]

validate_media_target-IsAllowed :
    (env : ProxyEnv) (raw : String) (allow : Bool)
    → IsAllowed env allow (validate_media_target env.net env.parse raw allow)
unfolding validate_media_target
validate_media_target-IsAllowed env raw allow = elim (Bool-cases (is_empty (trim_space raw))) [
  | inl y ↦ rw y tt
  | inr n ↦ rw n (checked_target-IsAllowed env allow (env.parse (trim_space raw)))
]

-- A local URL, which shows nothing of the remote one.
abbrev pub IsLocal : String → String → Type 0
IsLocal base url = (rest : String) × (url ≡ append base (append media_proxy_path_prefix rest))

abbrev pub IsLocalStream : String → ResolvedStream → Type 0
IsLocalStream base s = IsLocal base s.url × (s.headers ≡ [])

local_path-prefix :
    (env : ProxyEnv) (now : Time) (token : String) (s : Session)
    → (rest : String) × (local_path env now token s ≡ append media_proxy_path_prefix rest)
unfolding local_path
local_path-prefix env now token s = elim (Bool-cases s.is_hls) [
  | inl y ↦ (append token ".m3u8", rw y (append_assoc media_proxy_path_prefix token ".m3u8"))
  | inr n ↦ (token, rw n refl)
]

module _ (env : ProxyEnv) (allow : Bool) (base : String) (max_sessions : ℤ) where
  -- The settings are the given ones, every session is guarded, and there are no more than the limit.
  abbrev pub IsSafe : MediaProxy → Type 0
  IsSafe p =
      ((p.allow_private_network ≡ allow)
        × (p.local_base_url ≡ base)
        × (p.max_sessions ≡ max_sessions))
      × All (IsGuarded env allow) p.sessions
      × (length p.sessions ≤ limit_of max_sessions)

  -- After a step the proxy is safe, and a result is as stated.
  abbrev pub IsSafeStep : {A : Type 0} → (A → Type 0) → Step A → Type 0
  IsSafeStep Q (inl e, p) = IsSafe p
  IsSafeStep Q (inr a, p) = Q a × IsSafe p

  names : (e : String × Session) → IsGuarded env allow e → IsNamed e
  names e g = g.0.0

  module _ (r : IsRandom env) (now : Time) where
    opened-IsSafe :
        (s : Session) (p : MediaProxy) (drawn : Option String)
        → ((token : String) → drawn ≡ some token → is_empty token ≡ false)
        → IsTarget env allow s.target
        → all (is_allowed_header env.net.table) s.headers ≡ true
        → IsSafe p
        → IsSafeStep (IsLocalStream base) (opened env now s p drawn)
    unfolding opened put_session
    opened-IsSafe s p none named t h safe = safe
    opened-IsSafe s p (some token) named t h ((a, b, m), guarded, bounded) =
        let kept = All-prune_locked (IsGuarded env allow) now p guarded in
        let room = prune_locked-room now p (All-weaken names p.sessions guarded) in
        let (rest, q) = local_path-prefix env now token s in
        elim (Bool-cases (is_over now p.current_plan s.lifetime)) [
          | inl y ↦ rw y ((a, b, m), guarded, bounded)
          | inr n ↦ rw n (
            (
              (
                rest,
                ap (λ x. append p.local_base_url x) q
                    ∙ ap (λ x. append x (append media_proxy_path_prefix rest)) b,
              ),
              refl,
            ),
            (
              (a, b, m),
              All-put_session (IsGuarded env allow) token s (prune_locked now p).sessions
                  ((named token refl, t), h) kept,
              omega (
                arith,
                room,
                ap limit_of m,
                length-delete_session-le token (prune_locked now p).sessions,
              ),
            ),
          )
        ]

    after_target-IsSafe :
        (lifetime : Lifetime) (stream : ResolvedStream) (plan_expiry : Time) (p : MediaProxy)
        (checked : TargetError ⊎ MediaUrl)
        → IsAllowed env allow checked
        → IsSafe p
        → IsSafeStep
            (IsLocalStream base)
            (after_target env now lifetime stream plan_expiry p checked)
    unfolding after_target new_session sanitize_playback_headers
    after_target-IsSafe lifetime stream plan_expiry p (inl e) t safe = safe
    after_target-IsSafe lifetime stream plan_expiry p (inr target) t safe =
        elim (Bool-cases (before now (stream_expiry env now plan_expiry stream.url))) [
          | inl ahead ↦ rw ahead (
              opened-IsSafe _ (record p { drawn = suc p.drawn }) (env.random p.drawn) (r p.drawn) t
                (all-keep (is_allowed_header env.net.table) stream.headers) safe)
          | inr n ↦ rw n safe
        ]

    -- Opening a stream keeps the proxy safe, and what it answers is local.
    pub wrap_stream-IsSafe :
        (lifetime : Lifetime) (stream : ResolvedStream) (plan_expiry : Time) (p : MediaProxy)
        → IsSafe p
        → IsSafeStep (IsLocalStream base) (wrap_stream env now lifetime stream plan_expiry p)
    unfolding wrap_stream
    wrap_stream-IsSafe lifetime stream plan_expiry p safe =
        after_target-IsSafe lifetime stream plan_expiry p _
          (rw safe.0.0 (validate_media_target-IsAllowed env stream.url allow)) safe
