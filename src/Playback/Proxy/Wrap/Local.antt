-- ===== src/Playback/Proxy/Wrap/Local.antt =====
-- What a wrapped plan shows, and what it leaves in the proxy.
use hummtube.Base.{
  ◌≡◌, ℤ, Bool, true, false, ◌⊎◌, String, List, [], ◌∷◌, Option, none, some, inl, inr, All, arith,
  Bool-cases, is_empty, trim_space, str_eq, ltb, length,
}
use hummtube.Domain.Vocabulary.{Time, before, playback_mode_resolved_media}
use hummtube.Domain.Playback.{ResolvedStream, PlaybackVariant, SubtitleTrack, PlaybackPlan}
use hummtube.Playback.Proxy.Sessions.{Lifetime, MediaProxy, ProxyEnv, Step, limit_of, wrap_stream}
use hummtube.Playback.Proxy.Sessions.Guarded.{
  IsRandom, IsLocal, IsLocalStream, IsSafe, IsSafeStep, wrap_stream-IsSafe,
}
use hummtube.Playback.Proxy.Wrap.{
  and_then, if_some, each, wrap_variant, wrap_subtitle, wrap_streams, all_urls, plan_expiry,
  installed, staged, wrap_plan,
}

abbrev pub AllSome : {A : Type 0} → (A → Type 0) → Option A → Type 0
AllSome Q none = Unit
AllSome Q (some a) = Q a

-- A subtitle without a URL is left as it is.
abbrev pub IsLocalSubtitle : String → SubtitleTrack → Type 0
IsLocalSubtitle base t = (is_empty (trim_space t.url) ≡ true) ⊎ IsLocal base t.url

-- Every stream of the plan has a local URL and no headers.
abbrev pub IsLocalPlan : String → PlaybackPlan → Type 0
IsLocalPlan base plan =
    IsLocalStream base plan.primary
    × AllSome (IsLocalStream base) plan.audio
    × AllSome (IsLocalStream base) plan.audio_only
    × All (λ v. IsLocalStream base v.stream) plan.variants
    × All (IsLocalSubtitle base) plan.subtitles

module _ (env : ProxyEnv) (allow : Bool) (base : String) (max_sessions : ℤ) where
  abbrev pub Safe : MediaProxy → Type 0
  Safe p = IsSafe env allow base max_sessions p

  abbrev pub SafeStep : {A : Type 0} → (A → Type 0) → Step A → Type 0
  SafeStep Q x = IsSafeStep env allow base max_sessions Q x

  pub and_then-Safe :
      {A B : Type 0} (Q : A → Type 0) (R : B → Type 0) (x : Step A) (k : A → MediaProxy → Step B)
      → SafeStep Q x
      → ((a : A) (q : MediaProxy) → Q a → Safe q → SafeStep R (k a q))
      → SafeStep R (and_then x k)
  and_then-Safe Q R (inl e, p) k h f = h
  and_then-Safe Q R (inr a, p) k (good, safe) f = f a p good safe

  if_some-Safe :
      {A : Type 0} (Q : A → Type 0) (f : A → MediaProxy → Step A)
      → ((a : A) (p : MediaProxy) → Safe p → SafeStep Q (f a p))
      → (o : Option A) (p : MediaProxy) → Safe p
      → SafeStep (AllSome Q) (if_some f o p)
  if_some-Safe Q f good none p safe = (tt, safe)
  if_some-Safe Q f good (some a) p safe =
      and_then-Safe Q (AllSome Q) (f a p) _ (good a p safe) (λ b q g s. (g, s))

  each-Safe :
      {A : Type 0} (Q : A → Type 0) (f : A → MediaProxy → Step A)
      → ((a : A) (p : MediaProxy) → Safe p → SafeStep Q (f a p))
      → (list : List A) (p : MediaProxy) → Safe p
      → SafeStep (All Q) (each f list p)
  each-Safe Q f good [] p safe = (tt, safe)
  each-Safe Q f good (a ∷ list) p safe =
      and_then-Safe Q (All Q) (f a p) _ (good a p safe) (λ b q g s.
        and_then-Safe (All Q) (All Q) (each f list q) _ (each-Safe Q f good list q s)
          (λ rest r gs t. ((g, gs), t)))

  module _ (r : IsRandom env) (now : Time) where
    module _ (lifetime : Lifetime) (expires : Time) where
      one-Safe :
          (stream : ResolvedStream) (p : MediaProxy)
          → Safe p
          → SafeStep (IsLocalStream base) (wrap_stream env now lifetime stream expires p)
      one-Safe stream p safe =
          wrap_stream-IsSafe env allow base max_sessions r now lifetime stream expires p safe

      variant-Safe :
          (v : PlaybackVariant) (p : MediaProxy)
          → Safe p
          → SafeStep (λ w. IsLocalStream base w.stream) (wrap_variant env now lifetime expires v p)
      variant-Safe v p safe =
          and_then-Safe (IsLocalStream base) (λ w. IsLocalStream base w.stream)
            (wrap_stream env now lifetime v.stream expires p) _ (one-Safe v.stream p safe)
            (λ s q g t. (g, t))

      subtitle-Safe :
          (t : SubtitleTrack) (p : MediaProxy)
          → Safe p
          → SafeStep (IsLocalSubtitle base) (wrap_subtitle env now lifetime expires t p)
      subtitle-Safe t p safe = elim (Bool-cases (is_empty (trim_space t.url))) [
        | inl y ↦ rw y (inl y, safe)
        | inr n ↦ rw n (
            and_then-Safe (IsLocalStream base) (IsLocalSubtitle base)
              (wrap_stream env now lifetime (record { url = t.url; headers = [] }) expires p) _
              (one-Safe (record { url = t.url; headers = [] }) p safe) (λ s q g u. (inr g.0, u)))
      ]

      wrap_streams-Safe :
          (plan : PlaybackPlan) (p : MediaProxy)
          → Safe p
          → SafeStep (IsLocalPlan base) (wrap_streams env now lifetime expires plan p)
      unfolding wrap_streams
      wrap_streams-Safe plan p safe =
          let one = wrap_stream env now lifetime in
          let some_one = if_some-Safe (IsLocalStream base) (λ s q. one s expires q) one-Safe in
          and_then-Safe (IsLocalStream base) (IsLocalPlan base) (one plan.primary expires p) _
            (one-Safe plan.primary p safe)
            (λ primary q g s.
              and_then-Safe (AllSome (IsLocalStream base)) (IsLocalPlan base) _ _
                (some_one plan.audio q s)
                (λ audio q₂ g₂ s₂.
                  and_then-Safe (AllSome (IsLocalStream base)) (IsLocalPlan base) _ _
                    (some_one plan.audio_only q₂ s₂)
                    (λ audio_only q₃ g₃ s₃.
                      and_then-Safe (All (λ (v : PlaybackVariant). IsLocalStream base v.stream))
                        (IsLocalPlan base) _ _
                        (each-Safe (λ (v : PlaybackVariant). IsLocalStream base v.stream) _
                          variant-Safe plan.variants q₃ s₃)
                        (λ variants q₄ g₄ s₄.
                          and_then-Safe (All (IsLocalSubtitle base)) (IsLocalPlan base) _ _
                            (each-Safe (IsLocalSubtitle base) _ subtitle-Safe plan.subtitles q₄ s₄)
                            (λ subtitles q₅ g₅ s₅. ((g, g₂, g₃, g₄, g₅), s₅))))))

    installed-Safe :
        (context_over : Bool) (p : MediaProxy) (x : Step PlaybackPlan)
        → Safe p
        → SafeStep (IsLocalPlan base) x
        → SafeStep (IsLocalPlan base) (installed env now context_over p x)
    unfolding installed
    installed-Safe context_over p (inl e, q) safe h = safe
    installed-Safe true p (inr plan, q) safe h = safe
    installed-Safe false p (inr plan, q) (same, kept, bounded) (g, (_, new, room)) =
        (g, (same, new, room))

    staged-Safe : (p : MediaProxy) → Safe p → Safe (staged env now p)
    unfolding staged
    staged-Safe p (same, kept, bounded) = (same, tt, omega arith)

    -- A plan of resolved media comes out with local URLs and without headers, or not at all; and the
    -- proxy is left with no more sessions than its limit, each with a target where it may go and
    -- headers that may be sent there, if it was so before.
    pub wrap_plan-IsLocalPlan :
        (over_before over_after : Bool) (plan : PlaybackPlan) (p : MediaProxy)
        → str_eq plan.mode playback_mode_resolved_media ≡ true
        → IsSafe env allow base max_sessions p
        → IsSafeStep env allow base max_sessions
            (IsLocalPlan base)
            (wrap_plan env now over_before over_after plan p)
    unfolding wrap_plan
    wrap_plan-IsLocalPlan true over_after plan p resolved safe = safe
    wrap_plan-IsLocalPlan false over_after plan p resolved safe =
        rw resolved
          (elim (Bool-cases (ltb (limit_of p.max_sessions) (length (all_urls env now plan)))) [
            | inl y ↦ rw y safe
            | inr n ↦ rw n (elim (Bool-cases (before now (plan_expiry env now plan))) [
              | inr past ↦ rw past safe
              | inl ahead ↦ rw ahead (
                  installed-Safe over_after p _ safe (
                    wrap_streams-Safe
                      (record { plan = p.plans; deadline = plan_expiry env now plan })
                      (plan_expiry env now plan)
                      (record plan { expires_at = plan_expiry env now plan }) (staged env now p)
                      (staged-Safe p safe)))
            ])
          ])
