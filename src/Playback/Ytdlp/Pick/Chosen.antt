-- ===== src/Playback/Ytdlp/Pick/Chosen.antt =====
-- The formats that playback starts with: the loops with several accumulators keep, in each, what a
-- loop of its own would pick.
use hummtube.Base.{
  ℤ, ◌≡◌, refl, sym, ap, ◌∙◌, Bool, true, false, not, ◌&&◌, ◌||◌, List, [], ◌∷◌, Option, none, some,
  inl, inr, arith, Bool-cases, both_true, is_empty, if◌then◌else◌,
}
use hummtube.Domain.Vocabulary.{CaseTable}
use hummtube.Playback.Ytdlp.Format.{
  Format, has_video, has_audio, is_too_high, playable_format, playable_video_format,
  is_legacy_web_audio_codec, is_web_audio_format,
}
use hummtube.Playback.Ytdlp.Pick.{
  pick, beats, Choice, nothing_chosen, is_higher, playable_turn, playable_loop, takes_pair,
  Selected, pair_or, muxed_or, select_playable_formats, is_baseline_video, is_better_muxed,
  web_turn, web_loop, is_baseline_audio, sounds_better, select_web_playable_formats,
}
use hummtube.Playback.Ytdlp.Pick.Best.{In, pick-In}

-- The two writes of a turn of the first loop, on what its tests say.
abbrev turned : Bool → Bool → Bool → Bool → Bool → Format → Choice → Choice
turned base audio legacy first second f c =
    if not base
    then c
    else if audio && legacy
    then (if first then record c { muxed = some f } else c)
    else if not audio && second
    then record c { video_only = some f }
    else c

turned-muxed :
    (base audio legacy first second : Bool) (f : Format) (c : Choice)
    → (turned base audio legacy first second f c).muxed
      ≡ (if (base && (audio && legacy)) && first then some f else c.muxed)
turned-muxed base audio legacy first second f c = ground arith

turned-video_only :
    (base audio legacy first second : Bool) (f : Format) (c : Choice)
    → (turned base audio legacy first second f c).video_only
      ≡ (if (base && not audio) && second then some f else c.video_only)
turned-video_only base audio legacy first second f c = ground arith

-- Likewise for a turn of the loop of `selectPlayableFormats`.
abbrev played : Bool → Bool → Bool → Bool → Bool → Format → Choice → Choice
played unusable video audio first second f c =
    if unusable
    then c
    else if video && audio
    then (if first then record c { muxed = some f } else c)
    else let seen = if video && second then record c { video_only = some f } else c in
      if audio then record seen { audio_only = some f } else seen

played-writes :
    (unusable video audio first second : Bool) (f : Format) (c : Choice)
    → ((played unusable video audio first second f c).muxed
        ≡ (if (not unusable && (video && audio)) && first then some f else c.muxed))
      × ((played unusable video audio first second f c).video_only
          ≡ (if (not unusable && (video && not audio)) && second then some f else c.video_only))
      × ((played unusable video audio first second f c).audio_only
          ≡ (if not unusable && (audio && not video) then some f else c.audio_only))
played-writes unusable video audio first second f c = (ground arith, ground arith, ground arith)

beats_always : (f : Format) (o : Option Format) → beats (λ _ _. true) f o ≡ true
beats_always f none = refl
beats_always f (some g) = refl

and_true : (b : Bool) → (b && true) ≡ b
and_true true = refl
and_true false = refl

module _ (table : CaseTable) (max_height : ℤ) where
  abbrev is_web_muxed : Format → Bool
  is_web_muxed f =
      is_baseline_video table max_height f && (has_audio f && is_legacy_web_audio_codec table f)

  abbrev is_web_video_only : Format → Bool
  is_web_video_only f = is_baseline_video table max_height f && not (has_audio f)

  web_turn-muxed :
      (f : Format) (c : Choice)
      → (web_turn table max_height f c).muxed
        ≡ (if is_web_muxed f && beats (is_better_muxed table) f c.muxed then some f else c.muxed)
  unfolding web_turn
  web_turn-muxed f c =
      turned-muxed (is_baseline_video table max_height f) (has_audio f)
        (is_legacy_web_audio_codec table f) (beats (is_better_muxed table) f c.muxed)
        (beats is_higher f c.video_only) f c

  web_turn-video_only :
      (f : Format) (c : Choice)
      → (web_turn table max_height f c).video_only
        ≡ (if is_web_video_only f && beats is_higher f c.video_only then some f else c.video_only)
  unfolding web_turn
  web_turn-video_only f c =
      turned-video_only (is_baseline_video table max_height f) (has_audio f)
        (is_legacy_web_audio_codec table f) (beats (is_better_muxed table) f c.muxed)
        (beats is_higher f c.video_only) f c

  -- Each accumulator of the first loop of `selectWebPlayableFormats` is a loop of its own.
  web_loop-picks :
      (formats : List Format) (c : Choice)
      → ((web_loop table max_height formats c).muxed
          ≡ pick is_web_muxed (is_better_muxed table) c.muxed formats)
        × ((web_loop table max_height formats c).video_only
            ≡ pick is_web_video_only is_higher c.video_only formats)
  unfolding web_loop pick
  web_loop-picks [] c = (refl, refl)
  web_loop-picks (f ∷ formats) c =
      let (m, v) = web_loop-picks formats (web_turn table max_height f c) in
      (m ∙ rw (web_turn-muxed f c) refl, v ∙ rw (web_turn-video_only f c) refl)

  -- Likewise for the loop of `selectPlayableFormats`, but that its last audio format stays.
  abbrev is_usable : Format → Bool
  is_usable f = not (is_empty f.url || is_too_high max_height f)

  abbrev is_any_muxed : Format → Bool
  is_any_muxed f = is_usable f && (has_video f && has_audio f)

  abbrev is_any_video_only : Format → Bool
  is_any_video_only f = is_usable f && (has_video f && not (has_audio f))

  abbrev is_any_audio_only : Format → Bool
  is_any_audio_only f = is_usable f && (has_audio f && not (has_video f))

  abbrev always : Format → Format → Bool
  always f g = true

  playable_loop-picks :
      (formats : List Format) (c : Choice)
      → ((playable_loop max_height formats c).muxed ≡ pick is_any_muxed is_higher c.muxed formats)
        × ((playable_loop max_height formats c).video_only
            ≡ pick is_any_video_only is_higher c.video_only formats)
        × ((playable_loop max_height formats c).audio_only
            ≡ pick is_any_audio_only always c.audio_only formats)
  unfolding playable_loop pick playable_turn
  playable_loop-picks [] c = (refl, refl, refl)
  playable_loop-picks (f ∷ formats) c =
      let (m, v, a) = playable_loop-picks formats (playable_turn max_height f c) in
      let (p, q, r) =
        played-writes (is_empty f.url || is_too_high max_height f) (has_video f) (has_audio f)
          (beats is_higher f c.muxed) (beats is_higher f c.video_only) f c in
      (
        m ∙ ap (λ o. pick is_any_muxed is_higher o formats) p,
        v ∙ ap (λ o. pick is_any_video_only is_higher o formats) q,
        a
            ∙ rw (beats_always f c.audio_only, and_true (is_any_audio_only f))
                (ap (λ o. pick is_any_audio_only always o formats) r),
      )

  -- A video of the list that has a URL and is not above the limit, if one is chosen.
  abbrev IsVideo : List Format → Option Format → Type 0
  IsVideo formats none = Unit
  IsVideo formats (some f) = In f formats × (is_usable f ≡ true) × (has_video f ≡ true)

  abbrev IsAudio : List Format → Option Format → Type 0
  IsAudio formats none = Unit
  IsAudio formats (some f) = In f formats × (is_empty f.url ≡ false) × (has_audio f ≡ true)

  baseline-usable :
      (f : Format)
      → is_baseline_video table max_height f ≡ true
      → (is_usable f ≡ true) × (has_video f ≡ true)
  unfolding playable_video_format playable_format
  baseline-usable f h = (ground arith, ground arith)

  picked-IsVideo :
      (formats : List Format) (ok : Format → Bool) (better : Format → Format → Bool)
      (o : Option Format)
      → ((f : Format) → ok f ≡ true → (is_usable f ≡ true) × (has_video f ≡ true))
      → pick ok better none formats ≡ o
      → IsVideo formats o
  picked-IsVideo formats ok better none h e = tt
  picked-IsVideo formats ok better (some f) h e =
      let (there, good) = pick-In ok better formats f e in
      let (usable, video) = h f good in (there, usable, video)

  picked-IsAudio :
      (formats : List Format) (ok : Format → Bool) (better : Format → Format → Bool)
      (o : Option Format)
      → ((f : Format) → ok f ≡ true → (is_empty f.url ≡ false) × (has_audio f ≡ true))
      → pick ok better none formats ≡ o
      → IsAudio formats o
  picked-IsAudio formats ok better none h e = tt
  picked-IsAudio formats ok better (some f) h e =
      let (there, good) = pick-In ok better formats f e in
      let (url, audio) = h f good in (there, url, audio)

  abbrev pub AreChosen : List Format → Selected → Type 0
  AreChosen formats (video, audio) = IsVideo formats video × IsAudio formats audio

  pair_or-AreChosen :
      (formats : List Format) (muxed video audio : Option Format) (other : Selected)
      → IsVideo formats video
      → IsAudio formats audio
      → AreChosen formats other
      → AreChosen formats (pair_or (takes_pair muxed video audio) other)
  pair_or-AreChosen formats muxed none audio other v a o = o
  pair_or-AreChosen formats muxed (some v) none other hv a o = o
  pair_or-AreChosen formats muxed (some v) (some a) other hv ha o =
      elim (Bool-cases (beats is_higher v muxed)) [ inl y ↦ rw y (hv, ha) | inr n ↦ rw n o ]

  select_playable_formats-AreChosen :
      (formats : List Format) → AreChosen formats (select_playable_formats max_height formats)
  unfolding select_playable_formats
  select_playable_formats-AreChosen formats =
      let (m, v, a) = playable_loop-picks formats nothing_chosen in
      pair_or-AreChosen formats _ _ _ _
        (picked-IsVideo formats is_any_video_only is_higher _ (λ f h. (ground arith, ground arith))
          (sym v))
        (picked-IsAudio formats is_any_audio_only always _ (λ f h. (ground arith, ground arith))
          (sym a))
        (
          picked-IsVideo formats is_any_muxed is_higher _ (λ f h. (ground arith, ground arith))
              (sym m),
          tt,
        )

  muxed_or-AreChosen :
      (formats : List Format) (muxed : Option Format) (other : Selected)
      → IsVideo formats muxed
      → AreChosen formats other
      → AreChosen formats (muxed_or muxed other)
  muxed_or-AreChosen formats none other m o = o
  muxed_or-AreChosen formats (some f) other m o = (m, tt)

  -- Playback starts with formats of the list: the video has a URL and a video codec and is not above
  -- the limit of the height, the audio beside it has a URL and an audio codec.
  pub select_web_playable_formats-AreChosen :
      (formats : List Format)
      → AreChosen formats (select_web_playable_formats table max_height formats)
  unfolding select_web_playable_formats is_web_audio_format
  select_web_playable_formats-AreChosen formats =
      let (m, v) = web_loop-picks formats nothing_chosen in
      pair_or-AreChosen formats _ _ _ _
        (picked-IsVideo formats is_web_video_only is_higher _
          (λ f h. baseline-usable f (both_true (is_baseline_video table max_height f) _ h).0)
          (sym v))
        (picked-IsAudio formats (is_baseline_audio table) (sounds_better table) _
          (λ f h. (ground arith, ground arith)) refl)
        (muxed_or-AreChosen formats _ _
          (picked-IsVideo formats is_web_muxed (is_better_muxed table) _
            (λ f h. baseline-usable f (both_true (is_baseline_video table max_height f) _ h).0)
            (sym m))
          (select_playable_formats-AreChosen formats))
