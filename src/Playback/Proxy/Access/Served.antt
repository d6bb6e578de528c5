-- ===== src/Playback/Proxy/Access/Served.antt =====
-- From a local URL back to the remote one.
use Prim.Native.String.{◌++◌ as append}
use hummtube.Base.{
  ◌≡◌, refl, ap, ◌∙◌, true, false, suc, String, [], ◌∷◌, none, some, inl, inr, arith, Bool-cases,
  Option-cases, str_eq_refl, if◌then◌else◌,
}
use hummtube.Domain.Vocabulary.{Time, before}
use hummtube.Domain.Playback.{ResolvedStream}
use hummtube.Playback.Proxy.Target.{MediaUrl, validate_media_target}
use hummtube.Playback.Proxy.Sessions.{
  Session, Lifetime, Table, MediaProxy, ProxyEnv, find_session, delete_session, put_session,
  is_over, is_open, prune_locked, new_session, stream_expiry, opened, after_target, wrap_stream,
  local_path,
}
use hummtube.Playback.Proxy.Access.Tokens.{IsToken, parse_media_token-local_path}
use hummtube.Playback.Proxy.Access.{parse_media_token, session}

find_session-head :
    (token : String) (s : Session) (table : Table)
    → find_session token ((token, s) ∷ table) ≡ some s
unfolding find_session
find_session-head token s table = rw (str_eq_refl token) refl

find_session-delete_session :
    (token : String) (table : Table) → find_session token (delete_session token table) ≡ none
unfolding find_session delete_session
find_session-delete_session token [] = refl
find_session-delete_session token ((t, s) ∷ table) =
    ground (arith, find_session-delete_session token table)

session-found :
    (now : Time) (token : String) (p : MediaProxy) (s : Session)
    → find_session token p.sessions ≡ some s
    → (session now token p).0
      ≡ (if is_open now p.current_plan s then some (record s { last_used = now }) else none)
unfolding session
session-found now token p s found = elim (Bool-cases (is_open now p.current_plan s)) [
  | inl y ↦ rw found (rw y refl)
  | inr n ↦ rw found (rw n refl)
]

-- A token that is not served leaves the table.
pub session-gone :
    (now : Time) (token : String) (p : MediaProxy)
    → (session now token p).0 ≡ none
    → find_session token (session now token p).1.sessions ≡ none
unfolding session
session-gone now token p h = elim (Option-cases (find_session token p.sessions)) [
  | inl miss ↦ rw miss (find_session-delete_session token p.sessions)
  | inr (s, found) ↦ elim (Bool-cases (is_open now p.current_plan s)) [
    | inl y ↦ absurd (ground arith)
    | inr n ↦ rw found (rw n (find_session-delete_session token p.sessions))
  ]
]

module _ (env : ProxyEnv) (now : Time) where
  opened-found :
      (s : Session) (p : MediaProxy) (token : String)
      → is_over now p.current_plan s.lifetime ≡ false
      → ((opened env now s p (some token)).0
          ≡ inr
              (record { url = append p.local_base_url (local_path env now token s); headers = [] }))
        × (find_session token (opened env now s p (some token)).1.sessions ≡ some s)
        × ((opened env now s p (some token)).1.current_plan ≡ p.current_plan)
  unfolding opened put_session prune_locked
  opened-found s p token live = rw live (refl, find_session-head token s _, refl)

  wrap_stream-opened :
      (lifetime : Lifetime) (stream : ResolvedStream) (plan_expiry : Time) (p : MediaProxy)
      (target : MediaUrl)
      → validate_media_target env.net env.parse stream.url p.allow_private_network ≡ inr target
      → before now (stream_expiry env now plan_expiry stream.url) ≡ true
      → wrap_stream env now lifetime stream plan_expiry p
        ≡ opened env now
            (new_session env now lifetime stream
              (stream_expiry env now plan_expiry stream.url)
              target)
            (record p { drawn = suc p.drawn })
            (env.random p.drawn)
  unfolding wrap_stream after_target
  wrap_stream-opened lifetime stream plan_expiry p target valid ahead = rw valid (rw ahead refl)

  -- What opening a stream answers, and what the table it leaves answers to the token.
  pub wrap_stream-served :
      (later : Time) (lifetime : Lifetime) (stream : ResolvedStream) (plan_expiry : Time)
      (p : MediaProxy) (target : MediaUrl) (token : String)
      → validate_media_target env.net env.parse stream.url p.allow_private_network ≡ inr target
      → before now (stream_expiry env now plan_expiry stream.url) ≡ true
      → env.random p.drawn ≡ some token
      → IsToken token
      → is_over now p.current_plan lifetime ≡ false
      → let s =
          new_session env now lifetime stream
            (stream_expiry env now plan_expiry stream.url)
            target in
        let (answer, q) = wrap_stream env now lifetime stream plan_expiry p in
        (answer
          ≡ inr
              (record { url = append p.local_base_url (local_path env now token s); headers = [] }))
        × (parse_media_token (local_path env now token s) ≡ some token)
        × ((session later token q).0 ≡ (
            if is_open later p.current_plan s then some (record s { last_used = later }) else none))
  unfolding new_session
  wrap_stream-served later lifetime stream plan_expiry p target token valid ahead drawn t live =
      let s =
        new_session env now lifetime stream (stream_expiry env now plan_expiry stream.url) target in
      let p' = record p { drawn = suc p.drawn } in
      let made =
        wrap_stream-opened lifetime stream plan_expiry p target valid ahead
        ∙ ap (λ x. opened env now s p' x) drawn in
      let (answer, found, plan) = opened-found s p' token live in
      rw made (
        answer,
        parse_media_token-local_path env now token s t,
        session-found later token (opened env now s p' (some token)).1 s found
            ∙ ap (λ c. if is_open later c s then some (record s { last_used = later }) else none)
                plan,
      )
