-- ===== src/Playback/Proxy/Calls/Safe.antt =====
-- Every call keeps the proxy safe.
use hummtube.Base.{
  ◌≡◌, ◌<◌, refl, ℤ, Bool, true, false, String, List, [], ◌∷◌, some, inl, inr, All, arith,
  Bool-cases, Option-cases, some-inj, sym, str_eq, str_eq→eq, length,
}
use hummtube.Domain.Vocabulary.{Time, playback_mode_resolved_media}
use hummtube.Domain.Playback.{PlaybackPlan}
use hummtube.Playback.Proxy.Sessions.{
  Session, Table, MediaProxy, ProxyEnv, Step, find_session, delete_session, put_session, is_open,
  is_over, wrap_stream,
}
use hummtube.Playback.Proxy.Sessions.Room.{All-delete_session, length-delete_session-le}
use hummtube.Playback.Proxy.Sessions.Guarded.{
  IsGuarded, IsRandom, IsLocalStream, IsSafe, IsSafeStep, wrap_stream-IsSafe,
}
use hummtube.Playback.Proxy.Access.{session, mark_session_observed, with_sessions}
use hummtube.Playback.Proxy.Wrap.{revoke, wrap_plan}
use hummtube.Playback.Proxy.Wrap.Local.{IsLocalPlan, wrap_plan-IsLocalPlan}
use hummtube.Playback.Proxy.Hls.Rewritten.{manifest-Kept}
use hummtube.Playback.Proxy.Calls.{
  Call, wrapping, serving, observing, rewriting, revoking, new_media_proxy, after_call, after_calls,
}

found-All :
    (P : String × Session → Type 0) (token : String) (table : Table) (s : Session)
    → All P table
    → find_session token table ≡ some s
    → P (token, s) × (length (delete_session token table) < length table)
unfolding find_session delete_session
found-All P token [] s h found = absurd (ground arith)
found-All P token ((t, e) ∷ table) s (p, h) found = elim (Bool-cases (str_eq t token)) [
  | inl y ↦ (
    rw (sym (some-inj (rw y at found)), sym (str_eq→eq t token y)) p,
    rw y (omega (arith, length-delete_session-le token table)),
  )
  | inr n ↦
      let (good, short) = found-All P token table s h (rw n at found) in
      (good, rw n (omega (arith, short)))
]

module _ (env : ProxyEnv) (allow : Bool) (base : String) (max_sessions : ℤ) where
  abbrev Fine : MediaProxy → Type 0
  Fine p = IsSafe env allow base max_sessions p

  delete-Fine :
      (token : String) (p : MediaProxy)
      → Fine p
      → Fine (with_sessions p (delete_session token p.sessions))
  delete-Fine token p (same, kept, bounded) = (
    same,
    All-delete_session (IsGuarded env allow) token p.sessions kept,
    omega (arith, length-delete_session-le token p.sessions),
  )

  -- A session that was found may be put back with another instant or mark.
  put-Fine :
      (token : String) (p : MediaProxy) (s s' : Session)
      → Fine p
      → find_session token p.sessions ≡ some s
      → s'.target ≡ s.target
      → s'.headers ≡ s.headers
      → Fine (with_sessions p (put_session token s' p.sessions))
  unfolding put_session
  put-Fine token p s s' (same, kept, bounded) found t h =
      let ((named, target), headers) =
        (found-All (IsGuarded env allow) token p.sessions s kept found).0 in
      let short = (found-All (IsGuarded env allow) token p.sessions s kept found).1 in
      (
        same,
        (
          ((named, rw t target), rw h headers),
          All-delete_session (IsGuarded env allow) token p.sessions kept,
        ),
        omega (arith, short),
      )

  session-Fine :
      (now : Time) (token : String) (p : MediaProxy) → Fine p → Fine (session now token p).1
  unfolding session
  session-Fine now token p fine = elim (Option-cases (find_session token p.sessions)) [
    | inl miss ↦ rw miss (delete-Fine token p fine)
    | inr (s, found) ↦ elim (Bool-cases (is_open now p.current_plan s)) [
      | inl y ↦
          rw found (rw y (put-Fine token p s (record s { last_used = now }) fine found refl refl))
      | inr n ↦ rw found (rw n (delete-Fine token p fine))
    ]
  ]

  observed-Fine :
      (now : Time) (token : String) (p : MediaProxy)
      → Fine p
      → Fine (mark_session_observed now token p).1
  unfolding mark_session_observed
  observed-Fine now token p fine = elim (Option-cases (find_session token p.sessions)) [
    | inl miss ↦ rw miss fine
    | inr (s, found) ↦ elim (Bool-cases (is_over now p.current_plan s.lifetime)) [
      | inl y ↦ rw found (rw y (delete-Fine token p fine))
      | inr n ↦ rw found (
          rw n (elim (Bool-cases s.observed) [
            | inl o ↦ rw o fine
            | inr new ↦
                rw new (put-Fine token p s (record s { observed = true }) fine found refl refl)
          ]))
    ]
  ]

  revoke-Fine : (p : MediaProxy) → Fine p → Fine (revoke p)
  unfolding revoke
  revoke-Fine p (same, kept, bounded) = (same, tt, omega arith)

  left-Fine :
      {A : Type 0} (Q : A → Type 0) (x : Step A)
      → IsSafeStep env allow base max_sessions Q x
      → Fine x.1
  left-Fine Q (inl e, p) h = h
  left-Fine Q (inr a, p) h = h.1

  wrap-Fine :
      (r : IsRandom env) (now : Time) (over_before over_after : Bool) (plan : PlaybackPlan)
      (p : MediaProxy)
      → Fine p
      → Fine (wrap_plan env now over_before over_after plan p).1
  unfolding wrap_plan
  wrap-Fine r now true over_after plan p fine = fine
  wrap-Fine r now false over_after plan p fine =
      elim (Bool-cases (str_eq plan.mode playback_mode_resolved_media)) [
        | inl y ↦
            left-Fine (IsLocalPlan base) (wrap_plan env now false over_after plan p) (
              wrap_plan-IsLocalPlan env allow base max_sessions r now false over_after plan p y
                fine)
        | inr n ↦ rw n (revoke-Fine p fine)
      ]

  call-Fine :
      (r : IsRandom env) (call : Call) (p : MediaProxy) → Fine p → Fine (after_call env call p)
  unfolding after_call
  call-Fine r (wrapping now b a plan) p fine = wrap-Fine r now b a plan p fine
  call-Fine r (serving now token) p fine = session-Fine now token p fine
  call-Fine r (observing now token) p fine = observed-Fine now token p fine
  call-Fine r (rewriting now lifetime target headers expires body) p fine =
      manifest-Kept env now lifetime target headers expires Fine
        (λ stream q h.
          left-Fine (IsLocalStream base) (wrap_stream env now lifetime stream expires q)
            (wrap_stream-IsSafe env allow base max_sessions r now lifetime stream expires q h))
        body p fine
  call-Fine r revoking p fine = revoke-Fine p fine

  calls-Fine :
      (r : IsRandom env) (calls : List Call) (p : MediaProxy)
      → Fine p
      → Fine (after_calls env calls p)
  unfolding after_calls
  calls-Fine r [] p fine = fine
  calls-Fine r (call ∷ calls) p fine =
      calls-Fine r calls (after_call env call p) (call-Fine r call p fine)

  -- After any calls on a new proxy, in any order: its settings are as they were, it holds no more
  -- sessions than its limit, and every session has a target where the proxy may go and headers that
  -- may be sent there.
  pub after_calls-IsSafe :
      (calls : List Call)
      → IsRandom env
      → IsSafe env allow base max_sessions
          (after_calls env calls (new_media_proxy allow base max_sessions))
  after_calls-IsSafe calls r =
      calls-Fine r calls (new_media_proxy allow base max_sessions)
        ((refl, refl, refl), tt, omega arith)
