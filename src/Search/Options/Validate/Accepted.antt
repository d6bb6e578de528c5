-- ===== src/Search/Options/Validate/Accepted.antt =====
-- What options have that `ValidateOptions` accepts.
use Prim.Native.String.{len}
use hummtube.Base.{
  ◌≡◌, refl, ◌⊎◌, inl, inr, true, false, Bool, ◌&&◌, ◌≤◌, ◌≤ℤ◌, pos, String, List, [], ◌∷◌, Option,
  none, some, arith, All, is_empty, rune_count, str_eq, Bool-cases, if◌then◌else◌,
}
use hummtube.Domain.Vocabulary.{CaseTable, is_zero_time, before, search_resource_video, search_no}
use hummtube.Domain.Search.{SearchOptions}
use hummtube.Search.Options.{normalize_options, is_only, has_video_only_filter}
use hummtube.Search.Options.Validate.{
  TextField, text_of, OptionsError, ◌orelse◌, first_error, basic_checks, form_checks,
  provider_checks, has_control, text_error, text_errors, options_error, validate_options,
}
use hummtube.Search.Options.Validate.Enums.{valid_search_enums}

orelse-none : (a b : Option OptionsError) → (a orelse b) ≡ none → (a ≡ none) × (b ≡ none)
orelse-none none b h = (refl, h)
orelse-none (some e) b h = absurd (cc)

first_error-none :
    (checks : List (Bool × OptionsError))
    → first_error checks ≡ none
    → All (λ check. check.0 ≡ false) checks
first_error-none [] h = tt
first_error-none ((test, e) ∷ checks) h = elim (Bool-cases test) [
  | inl t ↦ absurd (ground arith)
  | inr f ↦ (f, first_error-none checks (rw f at h))
]

text_error-none :
    (field : TextField) (s : String)
    → text_error field s ≡ none
    → (rune_count s ≤ 500) × (has_control s ≡ false)
unfolding text_error
text_error-none field s h = (ground arith, ground arith)

text_errors-none :
    (visit : List TextField) (o : SearchOptions)
    → text_errors visit o ≡ none
    → All
        (λ field. (rune_count (text_of field o) ≤ 500) × (has_control (text_of field o) ≡ false))
        visit
unfolding text_errors
text_errors-none [] o h = tt
text_errors-none (field ∷ fields) o h =
    let (a, b) = orelse-none (text_error field (text_of field o)) (text_errors fields o) h in
    (text_error-none field (text_of field o) a, text_errors-none fields o b)

-- What is true of accepted options, on their normal form `o`.
pub record IsAccepted (visit : List TextField) (o : SearchOptions) : Type 0 where
  pub texts :
      All
        (λ field. (rune_count (text_of field o) ≤ 500) × (has_control (text_of field o) ≡ false))
        visit
  pub asks :
      (is_empty o.query
        && is_empty o.exact_phrase
        && is_empty o.include_terms
        && is_empty o.channel_id
        && is_empty o.topic_id
        && is_empty o.location)
      ≡ false
  pub dates :
      is_zero_time o.published_after ≡ false
      → is_zero_time o.published_before ≡ false
      → before o.published_after o.published_before ≡ true
  pub min_nonneg : pos 0 ≤ℤ o.min_duration
  pub max_nonneg : pos 0 ≤ℤ o.max_duration
  pub durations : pos 1 ≤ℤ o.max_duration → o.min_duration ≤ℤ o.max_duration
  pub one_kind : o.shorts_only ≡ true → o.regular_only ≡ false
  pub location_pair : is_empty o.location ≡ is_empty o.location_radius
  pub region : (len o.region_code ≡ 0) ⊎ (len o.region_code ≡ 2)
  pub enums : valid_search_enums o ≡ true
  pub video_filters :
      has_video_only_filter o ≡ true → is_only search_resource_video o.resource_types ≡ true
  pub embeddable_kept : str_eq o.embeddable search_no ≡ false
  pub syndicated_kept : str_eq o.syndicated search_no ≡ false
  pub promotion_kept : str_eq o.paid_promotion search_no ≡ false

-- None of the tests of the checks holds.
abbrev AllPass : List (Bool × OptionsError) → Type 0
AllPass checks = All (λ check. check.0 ≡ false) checks

accepted :
    (visit : List TextField) (o : SearchOptions)
    → All
        (λ field. (rune_count (text_of field o) ≤ 500) × (has_control (text_of field o) ≡ false))
        visit
    → AllPass (basic_checks o)
    → AllPass (form_checks o)
    → AllPass (provider_checks o)
    → IsAccepted visit o
accepted visit o texts (asks, (_, (dates, (sign, (order, (kind, (place, (region, _))))))))
      (enums, _) (videos, (_, (kept, (paid, _)))) =
    record {
      texts = texts;
      asks = asks;
      dates = λ x y. ground arith;
      min_nonneg = ground arith;
      max_nonneg = ground arith;
      durations = λ x. ground arith;
      one_kind = λ x. ground arith;
      location_pair = ground arith;
      region = ground arith;
      enums = ground arith;
      video_filters = λ x. ground arith;
      embeddable_kept = ground arith;
      syndicated_kept = ground arith;
      promotion_kept = paid;
    }

module _ (location_error : String → String → Option OptionsError) (visit : List TextField) where
  -- Options that are accepted have, once normalised: every text visited at most 500 characters
  -- long and free of control characters, something to search for, dates and durations in order and
  -- not negative, at most one of the two kinds of length, a location and a radius or neither, a
  -- region of no or two bytes, known values only, filters on videos only for a search of videos
  -- alone, and no exclusion that the API refuses.
  pub validate_options-none :
      (table : CaseTable) (opts : SearchOptions)
      → validate_options location_error visit table opts ≡ none
      → IsAccepted visit (normalize_options table opts)
  unfolding validate_options options_error
  validate_options-none table opts h =
      let o : SearchOptions = normalize_options table opts in
      let (t, r) = orelse-none (text_errors visit o) _ h in
      let (b, r2) = orelse-none (first_error (basic_checks o)) _ r in
      let (f, r3) = orelse-none (first_error (form_checks o)) _ r2 in
      let (_, p) =
        orelse-none
          (if is_empty o.location then none else location_error o.location o.location_radius)
          (first_error (provider_checks o)) r3 in
      accepted visit o (text_errors-none visit o t) (first_error-none (basic_checks o) b)
        (first_error-none (form_checks o) f) (first_error-none (provider_checks o) p)
