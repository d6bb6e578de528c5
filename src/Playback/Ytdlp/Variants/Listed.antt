-- ===== src/Playback/Ytdlp/Variants/Listed.antt =====
-- The variants that a web player is offered.
use hummtube.Base.{
  ℤ, pos, eqb_ℤ, leb_ℤ, ◌≡◌, Bool, true, false, ◌&&◌, List, none, All, any, arith, IsStrict,
}
use mathlib.Core.Option
use hummtube.Domain.Vocabulary.{CaseTable}
use hummtube.Playback.Ytdlp.Format.{
  Format, has_audio, is_too_high, playable_format, playable_video_format,
}
use hummtube.Playback.Ytdlp.Pick.{pick}
use hummtube.Playback.Ytdlp.Variants.{
  is_taller, variant_of, is_web_variant, is_legacy_video, build_web_variants,
}
use hummtube.Playback.Ytdlp.Variants.Best.{is_not_worse}
use hummtube.Playback.Ytdlp.Variants.Sorted.{
  IsVariantOf, at_variant, sorted_variants-IsStrict, sorted_variants-All, sorted_variants-find,
}

module _ (table : CaseTable) (formats : List Format) (max_height : ℤ) where
  -- H.264 is offered alone where a format has it.
  abbrev pub is_offered : Format → Bool
  is_offered f = is_web_variant table (any (is_legacy_video table max_height) formats) max_height f

  -- The variants for the web stand from the highest down, no height twice, and each is made of a
  -- format of the list that a web view loads and that is not above the limit of the height.
  pub build_web_variants-IsStrict :
      IsStrict is_taller (build_web_variants table formats max_height)
      × All
          (IsVariantOf table is_offered has_audio formats)
          (build_web_variants table formats max_height)
  unfolding build_web_variants
  build_web_variants-IsStrict = (
    sorted_variants-IsStrict table is_offered has_audio formats,
    sorted_variants-All table is_offered has_audio formats,
  )

  -- At every height, the variant for the web is the last of the most preferred formats of that
  -- height that may be offered; there is one exactly where there is such a format.
  pub build_web_variants-find :
      (h : ℤ)
      → at_variant h (build_web_variants table formats max_height)
        ≡ Option.map
            (λ f. variant_of table has_audio (h, f))
            (pick (λ f. is_offered f && eqb_ℤ f.height h) (is_not_worse table) none formats)
  unfolding build_web_variants
  build_web_variants-find h = sorted_variants-find table is_offered has_audio formats h

  -- Nothing above the limit is offered.
  pub is_offered-bounds :
      (f : Format)
      → is_offered f ≡ true
      → (is_too_high max_height f ≡ false) × (leb_ℤ f.height (pos 0) ≡ false)
  unfolding playable_video_format playable_format
  is_offered-bounds f h = (ground arith, ground arith)
