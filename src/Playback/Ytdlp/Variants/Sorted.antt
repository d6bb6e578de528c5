-- ===== src/Playback/Ytdlp/Variants/Sorted.antt =====
-- The variants: from the highest down, one for each height, each made of a format of the list.
use hummtube.Base.{
  ℤ, eqb_ℤ, ◌≡◌, refl, ap, ◌∙◌, Bool, true, false, ◌&&◌, ◌||◌, List, [], ◌∷◌, Option, none, inl,
  inr, All, map, find, arith, Bool-cases, both_true, stable_sort-All, AreApart, IsStrict,
  stable_sort-IsStrict, find-stable_sort,
}
use mathlib.Core.Option
use hummtube.Domain.Vocabulary.{CaseTable}
use hummtube.Domain.Playback.{PlaybackVariant}
use hummtube.Playback.Ytdlp.Format.{Format}
use hummtube.Playback.Ytdlp.Pick.{pick}
use hummtube.Playback.Ytdlp.Pick.Best.{In, All-In}
use hummtube.Playback.Ytdlp.Variants.{
  ByHeight, at_height, put_height, is_as_good, is_taller, best_by_height, variant_of,
  sorted_variants,
}
use hummtube.Playback.Ytdlp.Variants.Best.{is_not_worse, best_by_height-pick}

-- The first variant of a height.
abbrev pub at_variant : ℤ → List PlaybackVariant → Option PlaybackVariant
at_variant h variants = find (λ v. eqb_ℤ v.height h) variants

-- No entry has this key; no key stands twice.
abbrev LacksKey : ℤ → ByHeight → Type 0
LacksKey h entries = All (λ e. eqb_ℤ e.0 h ≡ false) entries

abbrev AreKeys : ByHeight → Type 0
AreKeys [] = Unit
AreKeys ((h, f) ∷ entries) = LacksKey h entries × AreKeys entries

put_height-LacksKey :
    (h k : ℤ) (f : Format) (entries : ByHeight)
    → eqb_ℤ k h ≡ false
    → LacksKey h entries
    → LacksKey h (put_height k f entries)
unfolding put_height
put_height-LacksKey h k f [] n l = (n, tt)
put_height-LacksKey h k f ((j, g) ∷ entries) n (m, l) = elim (Bool-cases (eqb_ℤ j k)) [
  | inl y ↦ rw y (n, l)
  | inr w ↦ rw w (m, put_height-LacksKey h k f entries n l)
]

eqb_ℤ→eq : (h k : ℤ) → eqb_ℤ h k ≡ true → h ≡ k
eqb_ℤ→eq h k e = ground arith

eqb_ℤ_comm : (h k : ℤ) → eqb_ℤ h k ≡ false → eqb_ℤ k h ≡ false
eqb_ℤ_comm h k e = ground arith

put_height-AreKeys :
    (k : ℤ) (f : Format) (entries : ByHeight) → AreKeys entries → AreKeys (put_height k f entries)
unfolding put_height
put_height-AreKeys k f [] a = (tt, tt)
put_height-AreKeys k f ((j, g) ∷ entries) (l, a) = elim (Bool-cases (eqb_ℤ j k)) [
  | inl y ↦ rw y (rw (eqb_ℤ→eq j k y) at l, a)
  | inr n ↦
      rw n
        (put_height-LacksKey j k f entries (eqb_ℤ_comm j k n) l, put_height-AreKeys k f entries a)
]

put_height-All :
    (P : ℤ × Format → Type 0) (k : ℤ) (f : Format) (entries : ByHeight)
    → P (k, f)
    → All P entries
    → All P (put_height k f entries)
unfolding put_height
put_height-All P k f [] p h = (p, tt)
put_height-All P k f ((j, g) ∷ entries) p (q, h) = elim (Bool-cases (eqb_ℤ j k)) [
  | inl y ↦ rw y (p, h)
  | inr n ↦ rw n (q, put_height-All P k f entries p h)
]

module _ (table : CaseTable) (ok : Format → Bool) where
  best_by_height-AreKeys :
      (formats : List Format) (entries : ByHeight)
      → AreKeys entries
      → AreKeys (best_by_height table ok entries formats)
  unfolding best_by_height
  best_by_height-AreKeys [] entries a = a
  best_by_height-AreKeys (f ∷ formats) entries a =
      elim (Bool-cases (ok f && is_as_good table f (at_height f.height entries))) [
        | inl y ↦ rw y (
            best_by_height-AreKeys formats (put_height f.height f entries)
              (put_height-AreKeys f.height f entries a))
        | inr n ↦ rw n (best_by_height-AreKeys formats entries a)
      ]

  -- An entry stands for a format of the list that passes the test, at its height.
  abbrev IsEntry : List Format → ℤ × Format → Type 0
  IsEntry all_formats (h, f) = In f all_formats × (ok f ≡ true) × (f.height ≡ h)

  best_by_height-All :
      (all_formats formats : List Format) (entries : ByHeight)
      → All (λ f. In f all_formats) formats
      → All (IsEntry all_formats) entries
      → All (IsEntry all_formats) (best_by_height table ok entries formats)
  unfolding best_by_height
  best_by_height-All all_formats [] entries i h = h
  best_by_height-All all_formats (f ∷ formats) entries (i, is) h =
      elim (Bool-cases (ok f && is_as_good table f (at_height f.height entries))) [
        | inl y ↦ rw y (
            best_by_height-All all_formats formats (put_height f.height f entries) is (
              put_height-All (IsEntry all_formats) f.height f entries
                (i, (both_true (ok f) _ y).0, refl) h))
        | inr n ↦ rw n (best_by_height-All all_formats formats entries is h)
      ]

  module _ (sound : Format → Bool) where
    -- A variant made of a format of the list that passes the test.
    abbrev pub IsVariantOf : List Format → PlaybackVariant → Type 0
    IsVariantOf formats v =
        (f : Format) × In f formats × (ok f ≡ true) × (v ≡ variant_of table sound (f.height, f))

    variants-All :
        (formats : List Format) (entries : ByHeight)
        → All (IsEntry formats) entries
        → All (IsVariantOf formats) (map (variant_of table sound) entries)
    variants-All formats [] h = tt
    variants-All formats ((h, f) ∷ entries) ((i, good, e), rest) =
        ((f, i, good, rw e refl), variants-All formats entries rest)

    variants_apart_from :
        (h : ℤ) (f : Format) (entries : ByHeight)
        → LacksKey h entries
        → All
            (λ v.
              (is_taller (variant_of table sound (h, f)) v
                || is_taller v (variant_of table sound (h, f)))
              ≡ true)
            (map (variant_of table sound) entries)
    variants_apart_from h f [] l = tt
    variants_apart_from h f ((k, g) ∷ entries) (n, l) =
        (ground arith, variants_apart_from h f entries l)

    variants-AreApart :
        (entries : ByHeight)
        → AreKeys entries
        → AreApart is_taller (map (variant_of table sound) entries)
    variants-AreApart [] a = tt
    variants-AreApart ((h, f) ∷ entries) (l, a) =
        (variants_apart_from h f entries l, variants-AreApart entries a)

    find-variants :
        (h : ℤ) (entries : ByHeight)
        → at_variant h (map (variant_of table sound) entries)
          ≡ Option.map (λ f. variant_of table sound (h, f)) (at_height h entries)
    unfolding at_height
    find-variants h [] = refl
    find-variants h ((k, f) ∷ entries) = elim (Bool-cases (eqb_ℤ k h)) [
      | inl y ↦ rw y (rw (eqb_ℤ→eq k h y) refl)
      | inr n ↦ rw n (find-variants h entries)
    ]

    taller_alone :
        (h : ℤ) (v w : PlaybackVariant)
        → is_taller w v ≡ true
        → (eqb_ℤ v.height h && eqb_ℤ w.height h) ≡ false
    taller_alone h v w e = ground arith

    module _ (formats : List Format) where
      abbrev pub entries_of : ByHeight
      entries_of = best_by_height table ok [] formats

      pub sorted_variants-IsStrict : IsStrict is_taller (sorted_variants table sound entries_of)
      unfolding sorted_variants
      sorted_variants-IsStrict =
          stable_sort-IsStrict is_taller _
            (variants-AreApart entries_of (best_by_height-AreKeys formats [] tt))

      pub sorted_variants-All : All (IsVariantOf formats) (sorted_variants table sound entries_of)
      unfolding sorted_variants
      sorted_variants-All = stable_sort-All is_taller (IsVariantOf formats) _ (
          variants-All formats entries_of
            (best_by_height-All formats formats [] (All-In formats) tt))

      pub sorted_variants-find :
          (h : ℤ)
          → at_variant h (sorted_variants table sound entries_of)
            ≡ Option.map
                (λ f. variant_of table sound (h, f))
                (pick (λ f. ok f && eqb_ℤ f.height h) (is_not_worse table) none formats)
      unfolding sorted_variants at_height
      sorted_variants-find h =
          find-stable_sort is_taller (λ v. eqb_ℤ v.height h) (taller_alone h) _
          ∙ find-variants h entries_of
          ∙ ap (λ o. Option.map (λ f. variant_of table sound (h, f)) o)
              (best_by_height-pick table ok h formats [])
