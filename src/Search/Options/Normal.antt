-- ===== src/Search/Options/Normal.antt =====
-- What `NormalizeOptions` establishes.
use hummtube.Base.{
  ◌≡◌, refl, false, String, List, [], ◌∷◌, ℤ, pos, ◌≤ℤ◌, arith, is_empty, is_empty-cases, inl, inr,
  trim_space, trim_space_idem, Char, is_space, trim_space-map_chars, map_chars_idem, ◌≢◌,
}
use hummtube.Domain.Vocabulary.{CaseTable, to_upper}
use hummtube.Domain.Search.{SearchOptions}
use hummtube.Search.Options.{default_to, clamp_results, default_types, normalize_options}

-- Every default is a text that is not empty, so a second default finds nothing to fill.
default_to_idem :
    (d s : String) → is_empty d ≡ false → default_to d (default_to d s) ≡ default_to d s
unfolding default_to
default_to_idem d s h = elim (is_empty-cases s) [ inl e ↦ rw (e, h) | inr n ↦ rw (n, n) ]

clamp_results_idem : (n : ℤ) → clamp_results (clamp_results n) ≡ clamp_results n
unfolding clamp_results
clamp_results_idem n = ground arith

default_types_idem : (ts : List String) → default_types (default_types ts) ≡ default_types ts
unfolding default_types
default_types_idem [] = refl
default_types_idem (t ∷ ts) = refl

-- The bound on the number of results.
clamp_results_bounds : (n : ℤ) → (pos 1 ≤ℤ clamp_results n) × (clamp_results n ≤ℤ pos 50)
unfolding clamp_results
clamp_results_bounds n = (ground arith, ground arith)

default_types-ne-nil : (ts : List String) → default_types ts ≢ []
unfolding default_types
default_types-ne-nil [] h = cc
default_types-ne-nil (t ∷ ts) h = cc

-- The options come out with 1 to 50 results asked for and with at least one type of result.
pub normalize_options_bounds :
    (table : CaseTable) (o : SearchOptions)
    → (pos 1 ≤ℤ (normalize_options table o).max_results)
      × ((normalize_options table o).max_results ≤ℤ pos 50)
      × ((normalize_options table o).resource_types ≢ [])
unfolding normalize_options
normalize_options_bounds table o =
    let (low, high) = clamp_results_bounds o.max_results in
    (low, high, default_types-ne-nil o.resource_types)

any_idem : (s : String) → default_to "any" (default_to "any" s) ≡ default_to "any" s
any_idem s = default_to_idem "any" s refl

relevance_idem :
    (s : String) → default_to "relevance" (default_to "relevance" s) ≡ default_to "relevance" s
relevance_idem s = default_to_idem "relevance" s refl

region_idem :
    (table : CaseTable)
    → ((c : Char) → is_space (table.upper c) ≡ is_space c)
    → ((c : Char) → table.upper (table.upper c) ≡ table.upper c)
    → (s : String)
    → to_upper table (trim_space (to_upper table (trim_space s))) ≡ to_upper table (trim_space s)
unfolding to_upper
region_idem table spaces twice s =
    rw (trim_space-map_chars table.upper spaces, trim_space_idem s)
      (map_chars_idem table.upper twice (trim_space s))

-- Normalising twice is normalising once, where the table of upper cases takes spaces and nothing
-- else to spaces and an upper case is its own upper case.
pub normalize_options_idem :
    (table : CaseTable) (o : SearchOptions)
    → ((c : Char) → is_space (table.upper c) ≡ is_space c)
    → ((c : Char) → table.upper (table.upper c) ≡ table.upper c)
    → normalize_options table (normalize_options table o) ≡ normalize_options table o
unfolding normalize_options
normalize_options_idem table o spaces twice = simp (
  trim_space_idem,
  region_idem table spaces twice,
  clamp_results_idem,
  default_types_idem,
  any_idem,
  relevance_idem,
)
