-- ===== src/Playback/Ytdlp/Variants/Best.antt =====
-- The map by heights against a loop of its own for each height.
use hummtube.Base.{
  ℤ, eqb_ℤ, ◌≡◌, refl, ap, ◌∙◌, Bool, true, ◌&&◌, List, [], ◌∷◌, Option, none, some, inl, inr,
  arith, leb, Bool-cases, if◌then◌else◌,
}
use hummtube.Domain.Vocabulary.{CaseTable}
use hummtube.Playback.Ytdlp.Format.{Format, web_video_preference}
use hummtube.Playback.Ytdlp.Pick.{pick, beats}
use hummtube.Playback.Ytdlp.Variants.{ByHeight, at_height, put_height, is_as_good, best_by_height}

eqb_ℤ→eq : (h k : ℤ) → eqb_ℤ h k ≡ true → h ≡ k
eqb_ℤ→eq h k e = ground arith

pub at_height-put_height :
    (h k : ℤ) (f : Format) (entries : ByHeight)
    → at_height h (put_height k f entries) ≡ (if eqb_ℤ k h then some f else at_height h entries)
unfolding at_height put_height
at_height-put_height h k f [] = refl
at_height-put_height h k f ((l, g) ∷ entries) = ground (arith, at_height-put_height h k f entries)

module _ (table : CaseTable) where
  abbrev pub is_not_worse : Format → Format → Bool
  is_not_worse f g = leb (web_video_preference table g) (web_video_preference table f)

  is_as_good-beats :
      (f : Format) (o : Option Format) → is_as_good table f o ≡ beats is_not_worse f o
  is_as_good-beats f none = refl
  is_as_good-beats f (some g) = refl

  -- One turn, looked at from one height.
  module _ (ok : Format → Bool) (h : ℤ) where
    turn_at :
        (f : Format) (entries : ByHeight)
        → at_height h (
            if ok f && is_as_good table f (at_height f.height entries)
            then put_height f.height f entries
            else entries)
          ≡ (if (ok f && eqb_ℤ f.height h) && beats is_not_worse f (at_height h entries)
              then some f
              else at_height h entries)
    turn_at f entries = elim (Bool-cases (ok f)) [
      | inr bad ↦ rw bad refl
      | inl good ↦ rw good (elim (Bool-cases (eqb_ℤ f.height h)) [
        | inl here ↦
            let q =
              ap (λ k. is_as_good table f (at_height k entries)) (eqb_ℤ→eq f.height h here)
              ∙ is_as_good-beats f (at_height h entries) in
            elim (Bool-cases (beats is_not_worse f (at_height h entries))) [
              | inl y ↦
                  rw (here, y, q ∙ y) (at_height-put_height h f.height f entries ∙ rw here refl)
              | inr n ↦ rw (here, n, q ∙ n) refl
            ]
        | inr elsewhere ↦
            rw elsewhere (elim (Bool-cases (is_as_good table f (at_height f.height entries))) [
              | inl y ↦ rw y (at_height-put_height h f.height f entries ∙ rw elsewhere refl)
              | inr n ↦ rw n refl
            ])
      ])
    ]

    -- The format that the map ends with at a height is the last of the most preferred formats of that
    -- height that pass the test.
    pub best_by_height-pick :
        (formats : List Format) (entries : ByHeight)
        → at_height h (best_by_height table ok entries formats)
          ≡ pick (λ f. ok f && eqb_ℤ f.height h) is_not_worse (at_height h entries) formats
    unfolding best_by_height pick
    best_by_height-pick [] entries = refl
    best_by_height-pick (f ∷ formats) entries =
        best_by_height-pick formats _
        ∙ ap (λ o. pick (λ f. ok f && eqb_ℤ f.height h) is_not_worse o formats) (turn_at f entries)
