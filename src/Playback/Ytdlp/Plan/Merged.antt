-- ===== src/Playback/Ytdlp/Plan/Merged.antt =====
-- The groups of formats in one list.
use hummtube.Base.{
  ◌≡◌, refl, Bool, true, false, ◌||◌, String, List, [], ◌∷◌, ◌++◌, inl, inr, any, str_eq, str_eq→eq,
  Bool-cases,
}
use hummtube.Playback.Ytdlp.Format.{Format}
use hummtube.Playback.Ytdlp.Plan.{format_key, merge_from, merge_formats}

abbrev is_known : List String → Format → Bool
is_known keys f = any (str_eq (format_key f)) keys

-- A format with the same identifier and URL stands in the list.
abbrev pub stands_in : List Format → Format → Bool
stands_in formats f = any (λ g. str_eq (format_key f) (format_key g)) formats

-- No two formats have the same identifier and URL.
abbrev pub AreNew : List String → List Format → Type 0
AreNew seen [] = Unit
AreNew seen (f ∷ formats) = (is_known seen f ≡ false) × AreNew (format_key f ∷ seen) formats

merge_from-AreNew :
    (seen : List String) (formats : List Format) → AreNew seen (merge_from seen formats)
unfolding merge_from
merge_from-AreNew seen [] = tt
merge_from-AreNew seen (f ∷ formats) = elim (Bool-cases (is_known seen f)) [
  | inl y ↦ rw y (merge_from-AreNew seen formats)
  | inr n ↦ rw n (n, merge_from-AreNew (format_key f ∷ seen) formats)
]

or_true : (b : Bool) → (b || true) ≡ true
or_true true = refl
or_true false = refl

merge_from-stands_in :
    (seen : List String) (formats : List Format) (g : Format)
    → stands_in formats g ≡ true
    → (is_known seen g || stands_in (merge_from seen formats) g) ≡ true
unfolding merge_from
merge_from-stands_in seen [] g h = cc
merge_from-stands_in seen (f ∷ formats) g h = elim (Bool-cases (is_known seen f)) [
  | inl y ↦ rw y (elim (Bool-cases (str_eq (format_key g) (format_key f))) [
    | inl same ↦ rw (str_eq→eq (format_key g) (format_key f) same, y) refl
    | inr other ↦ merge_from-stands_in seen formats g (rw other at h)
  ])
  | inr n ↦ rw n (elim (Bool-cases (str_eq (format_key g) (format_key f))) [
    | inl same ↦ rw same (or_true (is_known seen g))
    | inr other ↦
        let k = merge_from-stands_in (format_key f ∷ seen) formats g (rw other at h) in
        rw other (rw other at k)
  ])
]

-- Merging keeps every format of the two groups, up to its identifier and URL, and keeps no two with
-- the same ones.
pub merge_formats-stands_in :
    (formats requested : List Format) (g : Format)
    → stands_in (formats ++ requested) g ≡ true
    → AreNew [] (merge_formats formats requested)
      × (stands_in (merge_formats formats requested) g ≡ true)
unfolding merge_formats
merge_formats-stands_in formats requested g h = (
  merge_from-AreNew [] (formats ++ requested),
  merge_from-stands_in [] (formats ++ requested) g h,
)
