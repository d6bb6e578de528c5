-- ===== src/Search/Options/Validate.antt =====
-- internal/search/options.go: `ValidateOptions` and `validSearchEnums`.
-- `ValidateOptions` ranges over a Go map for its four texts: the order is a parameter. The check
-- of coordinates and radius (`validateLocation`), which is about floats, is a parameter too.
pub mod Accepted
pub mod Identifiers
pub mod Enums
use Prim.Native.String.{len}
use hummtube.Base.{
  ℕ, ◌+◌, suc, Char, code, ℤ, pos, ltb, leb, ltb_ℤ, Bool, true, false, not, ◌&&◌, ◌||◌, String,
  List, [], ◌∷◌, Option, none, some, str_eq, is_empty, rune_count, any, if◌then◌else◌, ◌==◌,
}
use hummtube.Domain.Vocabulary.{
  CaseTable, is_zero_time, before, search_resource_video, search_resource_channel,
  search_order_video_count, search_no,
}
use hummtube.Domain.Search.{SearchOptions}
use hummtube.Search.Options.{normalize_options, is_only, has_video_only_filter}
use Identifiers.{is_channel_id, is_category_id, is_topic_id, is_language}
use Enums.{valid_search_enums}

pub data TextField : Type 0 where
  query exact_phrase include_terms exclude_terms : TextField

pub data OptionsError : Type 0 where
  too_long : TextField → OptionsError
  control_character : TextField → OptionsError
  nothing_asked bad_page_token dates_swapped negative_duration durations_swapped : OptionsError
  exclusive_kinds location_incomplete bad_region bad_language unknown_value : OptionsError
  duplicate_type bad_channel bad_category bad_topic bad_language_code : OptionsError
  bad_location video_filter_elsewhere count_order_elsewhere : OptionsError
  embeddable_refused promotion_refused : OptionsError

abbrev text_of : TextField → SearchOptions → String
text_of query o = o.query
text_of exact_phrase o = o.exact_phrase
text_of include_terms o = o.include_terms
text_of exclude_terms o = o.exclude_terms

-- `unicode.IsControl`
is_control : Char → Bool
is_control c = ltb (code c) 0x20 || (leb 0x7f (code c) && leb (code c) 0x9f)

unfoldable pub has_control : String → Bool
unfolding is_control
has_control String.[] = false
has_control (String.◌∷◌ c s) = is_control c || has_control s

-- A check passes on to the next one.
infixr 20 ◌orelse◌
abbrev pub ◌orelse◌ : Option OptionsError → Option OptionsError → Option OptionsError
none orelse next = next
some e orelse next = some e

-- A run of `if test { return e }`.
abbrev pub first_error : List (Bool × OptionsError) → Option OptionsError
first_error [] = none
first_error ((test, e) ∷ checks) = if test then some e else first_error checks

text_error : TextField → String → Option OptionsError
text_error field value = first_error (
    (ltb 500 (rune_count value), too_long field)
    ∷ (has_control value, control_character field)
    ∷ [])

text_errors : List TextField → SearchOptions → Option OptionsError
unfolding text_error
text_errors [] o = none
text_errors (field ∷ fields) o = text_error field (text_of field o) orelse text_errors fields o

-- The loop over `seenResources`.
unfoldable pub has_duplicate : List String → List String → Bool
has_duplicate seen [] = false
has_duplicate seen (t ∷ ts) = any (str_eq t) seen || has_duplicate (t ∷ seen) ts

-- The checks before the enumerations.
abbrev pub basic_checks : SearchOptions → List (Bool × OptionsError)
basic_checks o =
    (
      is_empty o.query
          && is_empty o.exact_phrase
          && is_empty o.include_terms
          && is_empty o.channel_id
          && is_empty o.topic_id
          && is_empty o.location,
      nothing_asked,
    )
    ∷ (ltb 2048 (len o.page_token) || has_control o.page_token, bad_page_token)
    ∷ (
      not (is_zero_time o.published_after)
          && not (is_zero_time o.published_before)
          && not (before o.published_after o.published_before),
      dates_swapped,
    )
    ∷ (ltb_ℤ o.min_duration (pos 0) || ltb_ℤ o.max_duration (pos 0), negative_duration)
    ∷ (ltb_ℤ (pos 0) o.max_duration && ltb_ℤ o.max_duration o.min_duration, durations_swapped)
    ∷ (o.shorts_only && o.regular_only, exclusive_kinds)
    ∷ (
      is_empty o.location && not (is_empty o.location_radius)
          || not (is_empty o.location) && is_empty o.location_radius,
      location_incomplete,
    )
    ∷ (not (len o.region_code == 0) && not (len o.region_code == 2), bad_region)
    ∷ (ltb 12 (len o.relevance_language), bad_language)
    ∷ []

-- The checks from the enumerations to the language.
abbrev pub form_checks : SearchOptions → List (Bool × OptionsError)
form_checks o =
    (not (valid_search_enums o), unknown_value)
    ∷ (has_duplicate [] o.resource_types, duplicate_type)
    ∷ (not (is_empty o.channel_id) && not (is_channel_id o.channel_id), bad_channel)
    ∷ (not (is_empty o.category_id) && not (is_category_id o.category_id), bad_category)
    ∷ (
      not (is_empty o.topic_id) && (ltb 64 (len o.topic_id) || not (is_topic_id o.topic_id)),
      bad_topic,
    )
    ∷ (
      not (is_empty o.relevance_language) && not (is_language o.relevance_language),
      bad_language_code,
    )
    ∷ []

-- The checks after the location.
abbrev pub provider_checks : SearchOptions → List (Bool × OptionsError)
provider_checks o =
    (
      has_video_only_filter o && not (is_only search_resource_video o.resource_types),
      video_filter_elsewhere,
    )
    ∷ (
      str_eq o.order search_order_video_count
          && not (is_only search_resource_channel o.resource_types),
      count_order_elsewhere,
    )
    ∷ (str_eq o.embeddable search_no || str_eq o.syndicated search_no, embeddable_refused)
    ∷ (str_eq o.paid_promotion search_no, promotion_refused)
    ∷ []

module _ (location_error : String → String → Option OptionsError) (visit : List TextField) where
  -- The checks, in their order, on options that are normalised.
  unfoldable pub options_error : SearchOptions → Option OptionsError
  unfolding text_errors
  options_error o =
      text_errors visit o
      orelse first_error (basic_checks o)
      orelse first_error (form_checks o)
      orelse (if is_empty o.location then none else location_error o.location o.location_radius)
      orelse first_error (provider_checks o)

  -- `ValidateOptions`: no error means that the options are accepted.
  unfoldable pub validate_options : CaseTable → SearchOptions → Option OptionsError
  unfolding options_error
  validate_options table opts = options_error (normalize_options table opts)
