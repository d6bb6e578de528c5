-- ===== src/Playback/Ytdlp/Variants.antt =====
-- internal/playback/explicit_ytdlp.go: one variant for each height. The map `byHeight` is the list
-- of its entries, in the order in which their heights were first met.
pub mod Best
pub mod Sorted
pub mod Listed
use Prim.Native.String.{◌++◌ as append}
use hummtube.Base.{
  ℕ, ℤ, pos, pos_part, leb_ℤ, ltb_ℤ, eqb_ℤ, Bool, true, false, not, ◌&&◌, ◌||◌, leb, String, List,
  [], ◌∷◌, Option, none, some, is_empty, any, map, trim_space, itoa, stable_sort, if◌then◌else◌,
}
use hummtube.Domain.Vocabulary.{CaseTable}
use hummtube.Domain.Playback.{PlaybackVariant}
use hummtube.Playback.Ytdlp.Format.{
  Format, has_video, has_audio, is_too_high, playable_video_format, is_direct_web_video_format,
  is_legacy_web_video_codec, web_video_preference,
}
use hummtube.Playback.Ytdlp.Headers.{resolved_stream_from_format}

abbrev pub ByHeight : Type 0
ByHeight = List (ℤ × Format)

-- `byHeight[height]`
unfoldable pub at_height : ℤ → ByHeight → Option Format
at_height height [] = none
at_height height ((h, f) ∷ entries) =
    let rest = at_height height entries in if eqb_ℤ h height then some f else rest

-- `byHeight[height] = format`
unfoldable pub put_height : ℤ → Format → ByHeight → ByHeight
put_height height f [] = (height, f) ∷ []
put_height height f ((h, g) ∷ entries) =
    let rest = put_height height f entries in
    if eqb_ℤ h height then (height, f) ∷ entries else (h, g) ∷ rest

-- `"%dp"` for a height that is positive
abbrev height_label : ℤ → String
height_label height = append (itoa (pos_part height)) "p"

-- `variants[i].Height > variants[j].Height`
abbrev pub is_taller : PlaybackVariant → PlaybackVariant → Bool
is_taller v w = ltb_ℤ w.height v.height

-- `buildMuxedVariants` skips the others.
abbrev pub is_muxed_variant : ℤ → Format → Bool
is_muxed_variant max_height f =
    if is_empty f.url || leb_ℤ f.height (pos 0) || not (has_video f) || not (has_audio f)
    then false
    else not (is_too_high max_height f)

module _ (table : CaseTable) where
  -- `!exists || webVideoPreference(format) >= webVideoPreference(current)`
  abbrev pub is_as_good : Format → Option Format → Bool
  is_as_good f none = true
  is_as_good f (some g) = leb (web_video_preference table g) (web_video_preference table f)

  -- The loops that fill `byHeight` with the formats that pass a test.
  unfoldable pub best_by_height : (Format → Bool) → ByHeight → List Format → ByHeight
  unfolding at_height put_height
  best_by_height ok entries [] = entries
  best_by_height ok entries (f ∷ formats) =
      best_by_height ok
        (if ok f && is_as_good f (at_height f.height entries)
          then put_height f.height f entries
          else entries)
        formats

  -- The entry of a height as a variant.
  abbrev pub variant_of : (Format → Bool) → ℤ × Format → PlaybackVariant
  variant_of sound (height, f) =
      let id = trim_space f.format_id in
      record {
        id = if is_empty id then height_label height else id;
        label = height_label height;
        height = height;
        has_audio = sound f;
        stream = resolved_stream_from_format table f;
      }

  unfoldable pub sorted_variants : (Format → Bool) → ByHeight → List PlaybackVariant
  unfolding stable_sort
  sorted_variants sound entries = stable_sort is_taller (map (variant_of sound) entries)

  -- `buildMuxedVariants`
  unfoldable pub build_muxed_variants : List Format → ℤ → List PlaybackVariant
  unfolding best_by_height sorted_variants
  build_muxed_variants formats max_height =
      sorted_variants (λ _. true) (best_by_height (is_muxed_variant max_height) [] formats)

  abbrev pub is_legacy_video : ℤ → Format → Bool
  is_legacy_video max_height f =
      playable_video_format max_height f
      && is_direct_web_video_format table f
      && is_legacy_web_video_codec table f

  -- `buildWebVariants` skips the others; the flag is `hasLegacyCompatibleVideo`.
  abbrev pub is_web_variant : Bool → ℤ → Format → Bool
  is_web_variant legacy max_height f =
      if not (playable_video_format max_height f)
        || leb_ℤ f.height (pos 0)
        || not (is_direct_web_video_format table f)
      then false
      else not (legacy && not (is_legacy_web_video_codec table f))

  -- `buildWebVariants`
  unfoldable pub build_web_variants : List Format → ℤ → List PlaybackVariant
  unfolding best_by_height sorted_variants
  build_web_variants formats max_height =
      let legacy = any (is_legacy_video max_height) formats in
      sorted_variants has_audio (best_by_height (is_web_variant legacy max_height) [] formats)
