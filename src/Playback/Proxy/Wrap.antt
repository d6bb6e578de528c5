-- ===== src/Playback/Proxy/Wrap.antt =====
-- internal/playback/media_proxy.go: a plan with local URLs in place of the remote ones.
pub mod Local
use hummtube.Base.{
  ℕ, suc, ◌+ℤ◌, Bool, true, false, not, ◌&&◌, String, List, [], ◌∷◌, ◌++◌, map, Option, none, some,
  ◌⊎◌, inl, inr, is_empty, str_eq, trim_space, ltb, length, if◌then◌else◌,
}
use hummtube.Domain.Vocabulary.{Time, before, playback_mode_resolved_media}
use hummtube.Domain.Playback.{ResolvedStream, PlaybackVariant, SubtitleTrack, PlaybackPlan}
use hummtube.Playback.Cache.{media_url_expiry, playback_plan_urls}
use hummtube.Playback.Proxy.Sessions.{
  Lifetime, MediaProxy, ProxyEnv, ProxyError, expired, ended, too_many, Step, wrap_stream, capped,
  limit_of, media_proxy_default_ttl,
}

-- One step after another; an error ends them.
abbrev pub and_then : {A B : Type 0} → Step A → (A → MediaProxy → Step B) → Step B
and_then (inl e, p) k = (inl e, p)
and_then (inr a, p) k = k a p

module _ {A : Type 0} (f : A → MediaProxy → Step A) where
  abbrev pub if_some : Option A → MediaProxy → Step (Option A)
  if_some none p = (inr none, p)
  if_some (some a) p = and_then (f a p) (λ b q. (inr (some b), q))

  abbrev pub each : List A → MediaProxy → Step (List A)
  each [] p = (inr [], p)
  each (a ∷ list) p =
      and_then (f a p) (λ b q. and_then (each list q) (λ rest r. (inr (b ∷ rest), r)))

-- `Revoke`
unfoldable pub revoke : MediaProxy → MediaProxy
revoke p = record p { sessions = []; current_plan = none }

module _ (env : ProxyEnv) (now : Time) where
  module _ (lifetime : Lifetime) (expires : Time) where
    abbrev pub wrap_one : ResolvedStream → MediaProxy → Step ResolvedStream
    wrap_one stream p = wrap_stream env now lifetime stream expires p

    abbrev pub wrap_variant : PlaybackVariant → MediaProxy → Step PlaybackVariant
    wrap_variant v p = and_then (wrap_one v.stream p) (λ s q. (inr (record v { stream = s }), q))

    abbrev pub wrap_subtitle : SubtitleTrack → MediaProxy → Step SubtitleTrack
    wrap_subtitle t p =
        let wrapped =
          and_then (wrap_one (record { url = t.url; headers = [] }) p)
            (λ s q. (inr (record t { url = s.url }), q)) in
        if is_empty (trim_space t.url) then (inr t, p) else wrapped

    -- `wrapPlan`
    unfoldable pub wrap_streams : PlaybackPlan → MediaProxy → Step PlaybackPlan
    unfolding wrap_stream
    wrap_streams plan p = and_then (wrap_one plan.primary p) (λ primary q.
        and_then (if_some wrap_one plan.audio q) (λ audio r.
          and_then (if_some wrap_one plan.audio_only r) (λ audio_only s.
            and_then (each wrap_variant plan.variants s) (λ variants t.
              and_then (each wrap_subtitle plan.subtitles t) (λ subtitles u. (
                inr (record plan {
                  primary = primary;
                  audio = audio;
                  audio_only = audio_only;
                  variants = variants;
                  subtitles = subtitles;
                }),
                u,
              ))))))

  -- The URLs of a plan, those of its subtitles too
  unfoldable pub all_urls : PlaybackPlan → List String
  unfolding playback_plan_urls
  all_urls plan = playback_plan_urls plan ++ map (λ t. t.url) plan.subtitles

  unfoldable pub earliest : Time → List String → Time
  unfolding capped media_url_expiry
  earliest expires [] = expires
  earliest expires (u ∷ urls) = earliest (capped expires (media_url_expiry env.query u)) urls

  unfoldable pub plan_expiry : PlaybackPlan → Time
  unfolding all_urls earliest
  plan_expiry plan =
      capped (earliest (now +ℤ media_proxy_default_ttl) (all_urls plan)) plan.expires_at

  -- The staged sessions become the proxy's where nothing failed; the numbers that were drawn stay
  -- drawn.
  unfoldable pub installed : Bool → MediaProxy → Step PlaybackPlan → Step PlaybackPlan
  installed context_over p (inl e, staged) =
      (inl e, record p { plans = suc p.plans; drawn = staged.drawn })
  installed context_over p (inr plan, staged) =
      if context_over
      then (inl ended, record p { plans = suc p.plans; drawn = staged.drawn })
      else (
        inr plan,
        record p {
          plans = suc p.plans;
          drawn = staged.drawn;
          sessions = staged.sessions;
          current_plan = some p.plans;
        },
      )

  -- A proxy of its own, in which the lifetime is not cancelled
  unfoldable pub staged : MediaProxy → MediaProxy
  staged p = record p { sessions = []; current_plan = some p.plans }

  -- `WrapPlan`; the context of the call is over at its beginning or at its end.
  unfoldable pub wrap_plan : Bool → Bool → PlaybackPlan → MediaProxy → Step PlaybackPlan
  unfolding revoke wrap_streams plan_expiry installed staged limit_of
  wrap_plan over_before over_after plan p =
      let expires = plan_expiry plan in
      let lifetime : Lifetime = record { plan = p.plans; deadline = expires } in
      if over_before
      then (inl ended, p)
      else if not (str_eq plan.mode playback_mode_resolved_media)
      then (inr plan, revoke p)
      else if ltb (limit_of p.max_sessions) (length (all_urls plan))
      then (inl too_many, p)
      else if not (before now expires)
      then (inl expired, p)
      else installed over_after p
          (wrap_streams lifetime expires (record plan { expires_at = expires }) (staged p))
