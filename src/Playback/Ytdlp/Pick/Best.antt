-- ===== src/Playback/Ytdlp/Pick/Best.antt =====
-- What a loop that keeps the preferred candidate ends with.
use hummtube.Base.{
  All-weaken, ℕ, ℤ, ltb_ℤ, eqb_ℤ, ltb, ◌≡◌, refl, sym, ap, ◌∙◌, Bool, true, false, not, ◌&&◌, List,
  [], ◌∷◌, Option, none, some, ◌⊎◌, inl, inr, All, arith, both_true, Bool-cases, some-inj,
  if◌then◌else◌,
}
use hummtube.Domain.Vocabulary.{CaseTable}
use hummtube.Playback.Ytdlp.Format.{Format, web_video_preference}
use hummtube.Playback.Ytdlp.Pick.{
  pick, beats, bool_eq, is_muxed, is_legacy_pair, muxed_format_preferred, select_muxed_format,
}

-- The format is one of the list.
abbrev pub In : {A : Type 0} → A → List A → Type 0
In f [] = ⊥
In f (g ∷ formats) = (f ≡ g) ⊎ In f formats

pub All-In : {A : Type 0} (xs : List A) → All (λ x. In x xs) xs
All-In [] = tt
All-In (x ∷ xs) = (inl refl, All-weaken (λ y i. inr i) xs (All-In xs))

-- A preference: of two, at most one is preferred, and one that is not preferred to the second is not
-- preferred to what the second is not preferred to.
pub record IsPreference {A : Type 0} (better : A → A → Bool) : Type 0 where
  pub one_way : (f g : A) → better f g ≡ true → better g f ≡ false
  pub carries : (f g h : A) → better f g ≡ false → better g h ≡ false → better f h ≡ false

module _ {A : Type 0} (ok : A → Bool) (better : A → A → Bool) where
  -- The best of a list: one of it that passes the test, and no other that passes is preferred to it;
  -- `none` where none passes.
  abbrev pub IsBest : List A → Option A → Type 0
  IsBest formats none = All (λ g. ok g ≡ false) formats
  IsBest formats (some f) =
      In f formats × (ok f ≡ true) × All (λ g. (ok g && better g f) ≡ false) formats

  abbrev NotBeaten : A → Option A → Type 0
  NotBeaten f none = Unit
  NotBeaten f (some g) = better g f ≡ false

  abbrev taken : A → Option A → Option A
  taken x selected = if ok x && beats better x selected then some x else selected

  pick-found :
      (selected : Option A) (formats : List A) (f : A)
      → pick ok better selected formats ≡ some f
      → (selected ≡ some f) ⊎ (In f formats × (ok f ≡ true))
  unfolding pick
  pick-found selected [] f h = inl h
  pick-found selected (x ∷ formats) f h = elim (pick-found (taken x selected) formats f h) [
    | inr (there, good) ↦ inr (inr there, good)
    | inl now ↦ elim (Bool-cases (ok x && beats better x selected)) [
      | inl y ↦
          let e = some-inj (rw y at now) in
          inr (inl (sym e), ap ok (sym e) ∙ (both_true (ok x) _ y).0)
      | inr n ↦ inl (rw n at now)
    ]
  ]

  pick-none :
      (selected : Option A) (formats : List A)
      → pick ok better selected formats ≡ none
      → (selected ≡ none) × All (λ g. ok g ≡ false) formats
  unfolding pick
  pick-none selected [] h = (h, tt)
  pick-none none (x ∷ formats) h =
      let (now, rest) = pick-none (taken x none) formats h in (refl, (ground arith, rest))
  pick-none (some s) (x ∷ formats) h =
      let (now, rest) = pick-none (taken x (some s)) formats h in absurd (ground arith)

  -- What the loop picks is of the list, and passes the test.
  pub pick-In :
      (formats : List A) (f : A)
      → pick ok better none formats ≡ some f
      → In f formats × (ok f ≡ true)
  pick-In formats f h = elim (pick-found none formats f h) [ inl e ↦ absurd (cc) | inr x ↦ x ]

  module _ (p : IsPreference better) where
    irreflexive : (f : A) → better f f ≡ false
    irreflexive f = elim (Bool-cases (better f f)) [ inl y ↦ p.one_way f f y | inr n ↦ n ]

    NotBeaten-by_taken :
        (x : A) (selected : Option A) (f : A)
        → NotBeaten f (taken x selected)
        → NotBeaten f selected × ((ok x && better x f) ≡ false)
    NotBeaten-by_taken x none f h = elim (Bool-cases (ok x)) [
      | inl y ↦ (tt, rw y (rw y at h))
      | inr n ↦ (tt, rw n refl)
    ]
    NotBeaten-by_taken x (some s) f h = elim (Bool-cases (ok x)) [
      | inr n ↦ let k = rw n at h in (k, rw n refl)
      | inl y ↦ elim (Bool-cases (better x s)) [
        | inl b ↦ let k = rw (y, b) at h in (p.carries s x f (p.one_way x s b) k, rw y k)
        | inr w ↦ let k = rw (y, w) at h in (k, rw y (p.carries x s f w k))
      ]
    ]

    pick-NotBeaten :
        (selected : Option A) (formats : List A) (f : A)
        → pick ok better selected formats ≡ some f
        → NotBeaten f selected × All (λ g. (ok g && better g f) ≡ false) formats
    unfolding pick
    pick-NotBeaten none [] f h = cc
    pick-NotBeaten (some s) [] f h = (rw (sym (some-inj h)) (irreflexive s), tt)
    pick-NotBeaten selected (x ∷ formats) f h =
        let (now, rest) = pick-NotBeaten (taken x selected) formats f h in
        let (before, here) = NotBeaten-by_taken x selected f now in (before, (here, rest))

    -- The loop ends with the best of its list.
    IsBest-of :
        (formats : List A) (o : Option A) → pick ok better none formats ≡ o → IsBest formats o
    IsBest-of formats none h = (pick-none none formats h).1
    IsBest-of formats (some f) h = elim (pick-found none formats f h) [
      | inl no_one ↦ absurd (cc)
      | inr (there, good) ↦ (there, good, (pick-NotBeaten none formats f h).1)
    ]

    pub pick-IsBest : (formats : List A) → IsBest formats (pick ok better none formats)
    pick-IsBest formats = IsBest-of formats (pick ok better none formats) refl

-- A higher number of an order that a test reads is a preference.
pub higher-IsPreference :
    {A : Type 0} (key : A → ℤ) → IsPreference (λ (f g : A). ltb_ℤ (key g) (key f))
higher-IsPreference key = record {
  one_way = λ f g h. ground arith;
  carries = λ f g h a b. ground arith;
}

-- The order of `muxedFormatPreferred` and of the first loop of `selectWebPlayableFormats` on what
-- they compare: whether the codecs fit, the height, and the preference of the codecs.
abbrev codecs_first : Bool → Bool → ℤ → ℤ → ℕ → ℕ → Bool
codecs_first c d h k p q =
    if not (bool_eq c d) then c else if not (eqb_ℤ h k) then ltb_ℤ k h else ltb q p

codecs_first_one_way :
    (c d : Bool) (h k : ℤ) (p q : ℕ)
    → codecs_first c d h k p q ≡ true
    → codecs_first d c k h q p ≡ false
codecs_first_one_way true true h k p q e = ground arith
codecs_first_one_way true false h k p q e = refl
codecs_first_one_way false true h k p q e = cc
codecs_first_one_way false false h k p q e = ground arith

codecs_first_carries :
    (c d b : Bool) (h k l : ℤ) (p q r : ℕ)
    → codecs_first c d h k p q ≡ false
    → codecs_first d b k l q r ≡ false
    → codecs_first c b h l p r ≡ false
codecs_first_carries true true true h k l p q r e f = ground arith
codecs_first_carries true true false h k l p q r e f = cc
codecs_first_carries true false b h k l p q r e f = cc
codecs_first_carries false true true h k l p q r e f = refl
codecs_first_carries false true false h k l p q r e f = cc
codecs_first_carries false false true h k l p q r e f = refl
codecs_first_carries false false false h k l p q r e f = ground arith

muxed-IsPreference : (table : CaseTable) → IsPreference (muxed_format_preferred table)
unfolding muxed_format_preferred
muxed-IsPreference table = record {
  one_way = λ f g h.
      codecs_first_one_way (is_legacy_pair table f) (is_legacy_pair table g) f.height g.height
        (web_video_preference table f) (web_video_preference table g) h;
  carries = λ f g h a b.
      codecs_first_carries (is_legacy_pair table f) (is_legacy_pair table g)
        (is_legacy_pair table h) f.height g.height h.height (web_video_preference table f)
        (web_video_preference table g) (web_video_preference table h) a b;
}

-- The muxed format that is selected is one of the list that may be, within the height, and no other
-- is preferred to it: codecs that every web view plays come first, then the height, then the rest.
-- There is none only where no format may be selected.
pub select_muxed_format-IsBest :
    (table : CaseTable) (max_height : ℤ) (formats : List Format)
    → IsBest
        (is_muxed max_height)
        (muxed_format_preferred table)
        formats
        (select_muxed_format table max_height formats)
unfolding select_muxed_format
select_muxed_format-IsBest table max_height formats =
    pick-IsBest (is_muxed max_height) (muxed_format_preferred table) (muxed-IsPreference table)
      formats
