-- ===== src/Playback/Proxy/Hls/Rewritten.antt =====
-- The rewriting of a manifest keeps whatever the opening of each of its references keeps.
use hummtube.Base.{
  ℕ, zero, suc, not, ◌&&◌, ◌||◌, ◌==◌, ◌+◌, ◌++◌, ltb, List, [], ◌∷◌, Option, none, some, inl, inr,
  Bool-cases, Option-cases, is_empty, length, Bytes, utf8, starts_with, take, drop, index_of,
  trim_bytes,
}
use hummtube.Domain.Vocabulary.{Time}
use hummtube.Domain.Playback.{ResolvedStream}
use hummtube.Playback.Ytdlp.Headers.{Headers}
use hummtube.Playback.Proxy.Target.{MediaUrl, is_http}
use hummtube.Playback.Proxy.Sessions.{
  Lifetime, MediaProxy, ProxyEnv, Step, wrap_stream, media_proxy_path_prefix,
}
use hummtube.Playback.Proxy.Wrap.{and_then}
use hummtube.Playback.Proxy.Hls.{
  cut_at, split_lines, is_quotation, wrap_hls_reference, written, uri_attribute,
  uri_attributes_turn, uri_attributes_from, rewrite_hls_attributes, rewrite_hls_line, rewrite_lines,
  rewrite_hls_manifest,
}

module _ (env : ProxyEnv) (now : Time) (lifetime : Lifetime) (base : MediaUrl) (headers : Headers)
    (expires : Time) (Kept : MediaProxy → Type 0)
    (opening : (stream : ResolvedStream) (p : MediaProxy)
      → Kept p
      → Kept (wrap_stream env now lifetime stream expires p).1) where
  then-Kept :
      {A B : Type 0} (x : Step A) (k : A → MediaProxy → Step B)
      → Kept x.1
      → ((a : A) (q : MediaProxy) → Kept q → Kept (k a q).1)
      → Kept (and_then x k).1
  then-Kept (inl e, p) k h f = h
  then-Kept (inr a, p) k h f = f a p h

  written-Kept : (text : Bytes) (x : Step Bytes) → Kept x.1 → Kept (written text x).1
  written-Kept text x h = then-Kept x _ h (λ a q s. s)

  reference-Kept :
      (raw : Bytes) (p : MediaProxy)
      → Kept p
      → Kept (wrap_hls_reference env now lifetime base headers expires raw p).1
  unfolding wrap_hls_reference
  reference-Kept raw p kept =
      let value = trim_bytes raw in
      elim (Bool-cases (length value == 0 || starts_with value (utf8 media_proxy_path_prefix))) [
        | inl y ↦ rw y kept
        | inr n ↦ elim (Option-cases (env.parse_reference value)) [
          | inl miss ↦ rw n (rw miss kept)
          | inr (u, found) ↦ rw n (
              rw found (elim (Bool-cases (not (is_empty u.scheme) && not (is_http u.scheme))) [
                | inl y ↦ rw y kept
                | inr h ↦ rw h (then-Kept _ _ (opening _ p kept) (λ s q t. t))
              ]))
        ]
      ]

  uri_attribute-Kept :
      (before : Bytes) (next : Bytes → MediaProxy → Step Bytes) (p : MediaProxy) (after : Bytes)
      → ((s : Bytes) (q : MediaProxy) → Kept q → Kept (next s q).1)
      → Kept p
      → Kept (uri_attribute env now lifetime base headers expires before next p after).1
  uri_attribute-Kept before next p [] h kept = written-Kept before (next [] p) (h [] p kept)
  uri_attribute-Kept before next p (quote ∷ s) h kept = elim (Bool-cases (is_quotation quote)) [
    | inr n ↦ rw n (written-Kept before (next _ p) (h _ p kept))
    | inl y ↦ rw y (elim (Option-cases (cut_at quote s)) [
      | inl unclosed ↦ rw unclosed kept
      | inr ((raw, tail), closed) ↦ rw closed (
          let through : Bytes → Bytes = λ a. before ++ quote ∷ a ++ quote ∷ [] in
          then-Kept (wrap_hls_reference env now lifetime base headers expires raw p)
            (λ a q. written (through a) (next tail q)) (reference-Kept raw p kept)
            (λ a q t. written-Kept (through a) (next tail q) (h tail q t)))
    ])
  ]

  turn-Kept :
      (rest : Bytes) (next : Bytes → MediaProxy → Step Bytes) (p : MediaProxy) (found : Option ℕ)
      → ((s : Bytes) (q : MediaProxy) → Kept q → Kept (next s q).1)
      → Kept p
      → Kept (uri_attributes_turn env now lifetime base headers expires rest next p found).1
  turn-Kept rest next p none h kept = kept
  turn-Kept rest next p (some k) h kept =
      let quote_start = suc (suc (suc (suc k))) in
      elim (Bool-cases (ltb (length rest) quote_start)) [
        | inl y ↦ rw y kept
        | inr n ↦
            rw n (uri_attribute-Kept (take quote_start rest) next p (drop quote_start rest) h kept)
      ]

  attributes-Kept :
      (fuel : ℕ) (rest : Bytes) (p : MediaProxy)
      → Kept p
      → Kept (uri_attributes_from env now lifetime base headers expires fuel rest p).1
  unfolding uri_attributes_from
  attributes-Kept zero rest p kept = kept
  attributes-Kept (suc fuel) [] p kept = kept
  attributes-Kept (suc fuel) (b ∷ rest) p kept =
      turn-Kept (b ∷ rest)
        (λ s q. uri_attributes_from env now lifetime base headers expires fuel s q) p
        (index_of (env.upper_case (b ∷ rest)) (utf8 "URI=")) (λ s q t. attributes-Kept fuel s q t)
        kept

  line-Kept :
      (line : Bytes) (p : MediaProxy)
      → Kept p
      → Kept (rewrite_hls_line env now lifetime base headers expires line p).1
  unfolding rewrite_hls_line rewrite_hls_attributes
  line-Kept line p kept =
      let trimmed = trim_bytes line in
      elim (Bool-cases (length trimmed == 0 || starts_with trimmed (utf8 "#EXTM3U"))) [
        | inl y ↦ rw y kept
        | inr n ↦ rw n (elim (Bool-cases (starts_with trimmed (utf8 "#"))) [
          | inl tag ↦ rw tag (attributes-Kept (length line) line p kept)
          | inr uri ↦ elim (Option-cases (index_of line trimmed)) [
            | inl miss ↦ rw uri (rw miss kept)
            | inr (start, found) ↦ rw uri (
                rw found (
                  then-Kept (wrap_hls_reference env now lifetime base headers expires trimmed p)
                    (λ local q.
                      (inr (take start line ++ local ++ drop (start + length trimmed) line), q))
                    (reference-Kept trimmed p kept) (λ a q t. t)))
          ]
        ])
      ]

  lines-Kept :
      (lines : List Bytes) (p : MediaProxy)
      → Kept p
      → Kept (rewrite_lines env now lifetime base headers expires lines p).1
  unfolding rewrite_lines
  lines-Kept [] p kept = kept
  lines-Kept (line ∷ lines) p kept =
      then-Kept (rewrite_hls_line env now lifetime base headers expires line p)
        (λ a q. written a (rewrite_lines env now lifetime base headers expires lines q))
        (line-Kept line p kept) (λ a q t. written-Kept a _ (lines-Kept lines q t))

  pub manifest-Kept :
      (body : Bytes) (p : MediaProxy)
      → Kept p
      → Kept (rewrite_hls_manifest env now lifetime base headers expires body p).1
  unfolding rewrite_hls_manifest
  manifest-Kept body p kept = elim (Bool-cases (starts_with (trim_bytes body) (utf8 "#EXTM3U"))) [
    | inl y ↦ rw y (lines-Kept (split_lines body) p kept)
    | inr n ↦ rw n kept
  ]
