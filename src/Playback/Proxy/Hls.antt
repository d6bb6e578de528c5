-- ===== src/Playback/Proxy/Hls.antt =====
-- internal/playback/media_proxy.go: the references of an HLS manifest, each with a session of its own.
-- A manifest is read by bytes. The place of `URI=` is found in the line in upper case and used in
-- the line itself, so a slice may be out of range, which ends the call in a panic.
pub mod Rewritten
pub mod Turns
use hummtube.Base.{
  ℕ, zero, suc, ◌+◌, Bool, true, false, not, ◌&&◌, ◌||◌, ◌==◌, ltb, String, List, [], ◌∷◌, ◌++◌,
  Option, none, some, ◌⊎◌, inl, inr, is_empty, length, Bytes, utf8, starts_with, take, drop,
  index_of, trim_bytes, if◌then◌else◌,
}
use hummtube.Domain.Vocabulary.{Time}
use hummtube.Playback.Ytdlp.Headers.{Headers}
use hummtube.Playback.Proxy.Target.{MediaUrl, is_http}
use hummtube.Playback.Proxy.Sessions.{
  Lifetime, Reference, MediaProxy, ProxyEnv, ProxyError, bad_manifest, bad_reference,
  open_attribute, slice_out_of_range, Step, wrap_stream, media_proxy_path_prefix,
}
use hummtube.Playback.Proxy.Wrap.{and_then}

abbrev put_byte : ℕ → Option (Bytes × Bytes) → Option (Bytes × Bytes)
put_byte b none = none
put_byte b (some (before, after)) = some (b ∷ before, after)

-- What stands before and after the first such byte
unfoldable pub cut_at : ℕ → Bytes → Option (Bytes × Bytes)
cut_at mark [] = none
cut_at mark (b ∷ s) =
    let rest = cut_at mark s in if b == mark then some ([], s) else put_byte b rest

-- The lines of a text, each with its end: `strings.SplitAfter(s, "\n")`
abbrev put_line : ℕ → List Bytes → List Bytes
put_line b [] = (b ∷ []) ∷ []
put_line b (line ∷ lines) = (b ∷ line) ∷ lines

unfoldable pub split_lines : Bytes → List Bytes
split_lines [] = [] ∷ []
split_lines (b ∷ s) =
    let rest = split_lines s in if b == b'\n' then (b ∷ []) ∷ rest else put_line b rest

abbrev pub is_quotation : ℕ → Bool
is_quotation b = b == b'"' || b == b'\''

-- The text that a loop has written, and what it writes after it
abbrev pub written : Bytes → Step Bytes → Step Bytes
written text x = and_then x (λ more q. (inr (text ++ more), q))

module _ (env : ProxyEnv) (now : Time) (lifetime : Lifetime) (base : MediaUrl) (headers : Headers)
    (expires : Time) where
  abbrev wrap_reference : Bytes → MediaProxy → Option Reference → Step Bytes
  wrap_reference raw p none = (inl bad_reference, p)
  wrap_reference raw p (some r) =
      let wrapped =
        and_then
          (wrap_stream env now lifetime
            (record { url = env.resolve_reference base r; headers = headers }) expires p)
          (λ s q. (inr (utf8 s.url), q)) in
      if not (is_empty r.scheme) && not (is_http r.scheme) then (inr raw, p) else wrapped

  -- `wrapHLSReference`
  unfoldable pub wrap_hls_reference : Bytes → MediaProxy → Step Bytes
  unfolding wrap_stream starts_with trim_bytes utf8
  wrap_hls_reference raw p =
      let value = trim_bytes raw in
      if length value == 0 || starts_with value (utf8 media_proxy_path_prefix)
      then (inr raw, p)
      else wrap_reference raw p (env.parse_reference value)

  -- A turn of the loop: what follows `URI=`, with the loop's next turn.
  abbrev pub uri_attribute :
      Bytes → (Bytes → MediaProxy → Step Bytes) → MediaProxy → Bytes → Step Bytes
  uri_attribute before next p [] = written before (next [] p)
  uri_attribute before next p (quote ∷ s) =
      let plain = written before (next (quote ∷ s) p) in
      let quoted : Step Bytes = elim (cut_at quote s) [
        | none ↦ (inl open_attribute, p)
        | some (raw, tail) ↦
            and_then (wrap_hls_reference raw p)
              (λ local q. written (before ++ quote ∷ local ++ quote ∷ []) (next tail q))
      ] in
      if is_quotation quote then quoted else plain

  -- `URI=` is at the place `k` of the rest in upper case; the slices are of the rest itself.
  abbrev pub uri_attributes_turn :
      Bytes → (Bytes → MediaProxy → Step Bytes) → MediaProxy → Option ℕ → Step Bytes
  uri_attributes_turn rest next p none = (inr rest, p)
  uri_attributes_turn rest next p (some k) =
      let quote_start = suc (suc (suc (suc k))) in
      let attribute = uri_attribute (take quote_start rest) next p (drop quote_start rest) in
      if ltb (length rest) quote_start then (inl slice_out_of_range, p) else attribute

  -- The loop of `rewriteHLSAttributes`, for at most `fuel` turns; `rest` is what follows the
  -- position.
  unfoldable pub uri_attributes_from : ℕ → Bytes → MediaProxy → Step Bytes
  unfolding index_of take drop cut_at wrap_hls_reference
  uri_attributes_from zero rest p = (inr rest, p)
  uri_attributes_from (suc fuel) [] p = (inr [], p)
  uri_attributes_from (suc fuel) (b ∷ rest) p =
      uri_attributes_turn (b ∷ rest) (λ s q. uri_attributes_from fuel s q) p
        (index_of (env.upper_case (b ∷ rest)) (utf8 "URI="))

  -- `rewriteHLSAttributes`; every turn takes bytes away.
  unfoldable pub rewrite_hls_attributes : Bytes → MediaProxy → Step Bytes
  unfolding uri_attributes_from
  rewrite_hls_attributes line p = uri_attributes_from (length line) line p

  -- The reference in its line
  abbrev in_line : Bytes → Bytes → MediaProxy → Option ℕ → Step Bytes
  in_line line trimmed p none = (inr line, p)
  in_line line trimmed p (some start) =
      and_then (wrap_hls_reference trimmed p)
        (λ local q. (inr (take start line ++ local ++ drop (start + length trimmed) line), q))

  -- `rewriteHLSLine`
  unfoldable pub rewrite_hls_line : Bytes → MediaProxy → Step Bytes
  unfolding rewrite_hls_attributes wrap_hls_reference index_of take drop starts_with trim_bytes utf8
  rewrite_hls_line line p =
      let trimmed = trim_bytes line in
      if length trimmed == 0 || starts_with trimmed (utf8 "#EXTM3U")
      then (inr line, p)
      else if starts_with trimmed (utf8 "#")
      then rewrite_hls_attributes line p
      else in_line line trimmed p (index_of line trimmed)

  unfoldable pub rewrite_lines : List Bytes → MediaProxy → Step Bytes
  unfolding rewrite_hls_line
  rewrite_lines [] p = (inr [], p)
  rewrite_lines (line ∷ lines) p =
      and_then (rewrite_hls_line line p) (λ updated q. written updated (rewrite_lines lines q))

  -- `rewriteHLSManifest`
  unfoldable pub rewrite_hls_manifest : Bytes → MediaProxy → Step Bytes
  unfolding rewrite_lines split_lines starts_with trim_bytes utf8
  rewrite_hls_manifest body p =
      if starts_with (trim_bytes body) (utf8 "#EXTM3U")
      then rewrite_lines (split_lines body) p
      else (inl bad_manifest, p)
