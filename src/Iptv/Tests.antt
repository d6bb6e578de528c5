-- ===== src/Iptv/Tests.antt =====
-- The import of playlists at concrete inputs.
use hummtube.Base.{
  itoa, ◌<◌, ◌≤◌, pos, ◌≤ℤ◌, ◌≡◌, refl, true, false, List, [], ◌∷◌, none, some, inr, length, All,
  trim_space, map_chars,
}
use hummtube.Domain.Vocabulary.{CaseTable, to_lower, to_upper, equal_fold}
use hummtube.Iptv.Model.{Item, ParseOptions}
use hummtube.Iptv.Extinf.{
  scan_char, split_extinf, is_attribute_key_character, Attributes, parse_attributes, parse_extinf,
}
use hummtube.Iptv.Extinf.Rendering.{render, stored, parse_attributes-render}
use hummtube.Iptv.M3u.{
  Reader, Handler, parse_m3u, parse_m3u_stream, normalize_options, max_parse_warnings,
}
use hummtube.Iptv.M3u.Items.{Catalogue}
use hummtube.Iptv.M3u.Flow.{outcome, parse_m3u_stream-bounds}
use hummtube.Iptv.M3u.Whole.{imported, items_of, parse_m3u-imported}
use hummtube.Base.{inl}
use hummtube.Iptv.Network.{
  Net, v4, v6, addr_eq, unmap, addresses_of, is_forbidden_endpoint_address, dial_context,
  unsafe_endpoint,
}
use hummtube.Iptv.Network.Public.{IsPublic}
use hummtube.Iptv.Network.Safety.{EndsPublic, dial_context-IsPublic, dial_context-unsafe}

abbrev caseless : CaseTable
caseless = record { lower = λ c. c; upper = λ c. c; fold = λ c. c }

abbrev plain : Catalogue
plain = record { table = caseless; find_episode = λ _. none; digest = λ s. s }

-- Two channels, the second without an entry.
abbrev channels : Reader
channels limit = (
  "#EXTM3U" ∷ "#EXTINF:-1 tvg-id=\"a\" group-title=\"news, local\",Channel, one" ∷ "http://host/1"
      ∷ "http://host/2" ∷ [],
  none,
)

abbrev one_by_one : ParseOptions
one_by_one = record {
  source_id = "s";
  source_name = "";
  max_items = pos 10;
  max_line_bytes = pos 0;
  batch_size = pos 1;
}

abbrev record_batches : Handler (List (List Item))
record_batches batches batch = (batch ∷ batches, none)

split_test : split_extinf "-1 group-title=\"news, local\",Channel, one" ≡ record {
  metadata = "-1 group-title=\"news, local\"";
  title = "Channel, one";
  has_title = true;
}
unfolding split_extinf scan_char
split_test = refl

attributes_test :
    parse_attributes caseless "-1 tvg-id=a  x = 'it\\'s' lone"
    ≡ ("x", "it's") ∷ ("tvg-id", "a") ∷ []
unfolding parse_attributes to_lower map_chars is_attribute_key_character
attributes_test = refl

itoa_test : itoa 907 ≡ "907"
unfolding itoa
itoa_test = refl

parse_m3u-test :
    items_of (parse_m3u plain (some channels) one_by_one)
    ≡ inr (
        record {
          id = "tv-s\0tv\0a";
          source_id = "s";
          source_name = "s";
          kind = "tv";
          classification = "group";
          title = "Channel, one";
          raw_title = "Channel, one";
          group = "news, local";
          logo_url = "";
          stream_url = "http://host/1";
          epg_id = "a";
          channel_number = "";
          language = "";
          country = "";
          episode = record { season = 0; episode = 0; has_season = false; has_episode = false };
        }
        ∷ [])
unfolding parse_m3u trim_space equal_fold map_chars to_upper parse_extinf is_attribute_key_character
parse_m3u-test = refl

parse_m3u_stream-bounds_example :
    (pos
        (outcome (
          parse_m3u_stream plain (some channels) one_by_one (some record_batches) [])).summary.total
      ≤ℤ (normalize_options one_by_one).max_items)
    × (length
          (outcome (
            parse_m3u_stream plain
              (some channels)
              one_by_one
              (some record_batches)
              [])).summary.warnings
        ≤ max_parse_warnings)
    × All
        (λ b. 0 < length b)
        (outcome
          (parse_m3u_stream plain (some channels) one_by_one (some record_batches) [])).handled
parse_m3u_stream-bounds_example =
    parse_m3u_stream-bounds (λ batches. All (λ b. 0 < length b) batches) plain channels one_by_one
      record_batches (λ k batch p some_item fits. (some_item, p)) [] tt

parse_m3u-imported_example :
    items_of (parse_m3u plain (some channels) one_by_one)
    ≡ imported plain
        (normalize_options one_by_one)
        (channels (normalize_options one_by_one).max_line_bytes)
parse_m3u-imported_example = parse_m3u-imported plain channels one_by_one

abbrev two_attributes : Attributes
two_attributes = ("tvg-id", "a b") ∷ ("group-title", "the \"best\", \\o/") ∷ []

parse_attributes-render_example :
    parse_attributes caseless (render two_attributes) ≡ stored caseless two_attributes []
unfolding is_attribute_key_character
parse_attributes-render_example = parse_attributes-render caseless two_attributes refl

-- A resolver that answers one public and one private address.
abbrev mixed : Net
mixed = record {
  table = caseless;
  parse_addr = λ _. none;
  lookup = λ _. some (v4 0x08080808 ∷ v4 0x0a000001 ∷ []);
  dial = λ _ _. true;
}

-- A resolver that answers two public addresses, the first one twice; only the larger one answers.
abbrev open_network : Net
open_network = record {
  table = caseless;
  parse_addr = λ _. none;
  lookup = λ _. some (v4 0x09090909 ∷ v4 0x08080808 ∷ v6 0xffff09090909 "" ∷ []);
  dial = λ a _. addr_eq a (v4 0x09090909);
}

dial_context_test :
    dial_context open_network "host." "80"
    ≡ (v4 0x08080808 ∷ v4 0x09090909 ∷ [], inr (v4 0x09090909))
unfolding dial_context to_lower map_chars
dial_context_test = refl

loopback_test : is_forbidden_endpoint_address (v4 0x7f000001) ≡ true
unfolding is_forbidden_endpoint_address
loopback_test = refl

-- The unspecified address with a zone is taken for a public one.
zone_test : is_forbidden_endpoint_address (v6 0 "eth0") ≡ false
unfolding is_forbidden_endpoint_address
zone_test = refl

dial_context-IsPublic_example :
    All IsPublic (dial_context open_network "host." "80").0
    × EndsPublic (dial_context open_network "host." "80").1
dial_context-IsPublic_example = dial_context-IsPublic open_network "host." "80"

dial_context-unsafe_example : dial_context mixed "host" "80" ≡ ([], inl unsafe_endpoint)
unfolding is_forbidden_endpoint_address unmap addresses_of
dial_context-unsafe_example =
    dial_context-unsafe mixed "host" "80" (v4 0x08080808 ∷ v4 0x0a000001 ∷ []) refl refl
