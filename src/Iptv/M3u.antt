-- ===== src/Iptv/M3u.antt =====
-- internal/iptv/m3u.go: the import of a playlist, line by line and batch by batch. A reader is what
-- `bufio.Scanner` makes of it for a limit of bytes per line: the lines, and the error it ended with.
-- The handler of batches has a state of its own.
pub mod Items
pub mod Quiet
pub mod Flow
pub mod Listing
pub mod Whole
use hummtube.Base.{
  ℕ, suc, ℤ, pos, leb_ℤ, Bool, true, false, Char, code, ltb, ◌==◌, String, List, [], ◌∷◌, ◌++◌,
  Option, none, some, ◌⊎◌, inl, inr, length, is_empty, is_some, has_prefix, trim_space,
  if◌then◌else◌,
}
use Prim.Native.String.{slice, len}
use hummtube.Domain.Vocabulary.{CaseTable, to_upper, equal_fold}
use hummtube.Iptv.Model.{Item, ParseWarning, Playlist, ParseOptions, M3uEntry}
use hummtube.Iptv.Extinf.{parse_extinf}
use hummtube.Iptv.M3u.Items.{Catalogue, build_item}

abbrev pub default_max_items : ℤ
default_max_items = pos 100_000

abbrev pub default_max_line_bytes : ℤ
default_max_line_bytes = pos 1_048_576

abbrev pub default_batch_size : ℤ
default_batch_size = pos 2_000

abbrev pub max_parse_warnings : ℕ
max_parse_warnings = 100

abbrev or_positive : ℤ → ℤ → ℤ
or_positive n default = if leb_ℤ n (pos 0) then default else n

abbrev or_named : String → String → String
or_named s default = if is_empty (trim_space s) then default else s

-- `normalizeOptions`
unfoldable pub normalize_options : ParseOptions → ParseOptions
normalize_options o =
    let id = or_named o.source_id "source-local" in
    record {
      source_id = id;
      source_name = or_named o.source_name id;
      max_items = or_positive o.max_items default_max_items;
      max_line_bytes = or_positive o.max_line_bytes default_max_line_bytes;
      batch_size = or_positive o.batch_size default_batch_size;
    }

pub data StreamError : Type 0 where
  reader_nil : StreamError
  handler_nil : StreamError
  batch_failed : String → StreamError
  limit_exceeded : ℤ → StreamError
  scan_failed : String → StreamError

pub record M3uStreamSummary : Type 0 where
  pub total : ℕ
  pub warnings : List ParseWarning

abbrev pub Reader : Type 0
Reader = ℤ → List String × Option String

-- A handler takes a batch, and may fail with the text of an error.
abbrev pub Handler : Type 0 → Type 0
Handler K = K → List Item → K × Option String

-- The variables of `ParseM3UStream`, and the state of the handler.
pub record Import (K : Type 0) : Type 0 where
  pub summary : M3uStreamSummary
  pub batch : List Item
  pub pending : Option M3uEntry
  pub current_group : String
  pub line_number : ℕ
  pub handled : K

-- The function goes on, or returns an error.
pub data Step (K : Type 0) : Type 0 where
  go_on : Import K → Step K
  stop : Import K → StreamError → Step K

-- `addParseWarning`
unfoldable pub add_parse_warning : M3uStreamSummary → ParseWarning → M3uStreamSummary
add_parse_warning summary warning =
    if ltb (length summary.warnings) max_parse_warnings
    then record summary { warnings = summary.warnings ++ warning ∷ [] }
    else summary

-- `strings.TrimPrefix(s, "\ufeff")`
abbrev trim_mark : String → String
trim_mark String.[] = String.[]
trim_mark (String.◌∷◌ c s) = if code c == 0xfeff then s else String.◌∷◌ c s

abbrev pub clean_line : String → String
clean_line raw = trim_space (trim_mark raw)

abbrev pub is_skipped : CaseTable → String → Bool
is_skipped table line = if is_empty line then true else equal_fold table line "#EXTM3U"

-- The group of the lines `#EXTGRP:` for an entry that has none of its own.
unfoldable pub in_group : String → M3uEntry → M3uEntry
in_group group entry = if is_empty entry.group then record entry { group = group } else entry

abbrev pub regrouped : String → Option M3uEntry → Option M3uEntry
regrouped group none = none
regrouped group (some entry) = some (in_group group entry)

abbrev pub group_of_line : String → String
group_of_line line = trim_space (slice line 8 (len line))

module _ {K : Type 0} where
  unfoldable pub warn : String → String → Import K → Import K
  unfolding add_parse_warning
  warn code message s = record s {
    summary =
        add_parse_warning s.summary
          (record { line = s.line_number; code = code; message = message });
  }

  -- The function `flush`, and what the handler answered.
  unfoldable pub after_batch : Import K → K × Option String → Step K
  after_batch s (k, none) = go_on (record s { handled = k; batch = [] })
  after_batch s (k, some e) = stop (record s { handled = k }) (batch_failed e)

  unfoldable pub hand_over : Handler K → List Item → Import K → Step K
  unfolding after_batch
  hand_over handle [] s = go_on s
  hand_over handle (x ∷ batch) s = after_batch s (handle s.handled (x ∷ batch))

  unfoldable pub flush : Handler K → Import K → Step K
  unfolding hand_over
  flush handle s = hand_over handle s.batch s

  -- A line `#EXTINF:`: what is done with its entry, or with the error in it.
  unfoldable pub after_extinf : String ⊎ M3uEntry → Import K → Import K
  unfolding warn in_group
  after_extinf (inl e) s = record (warn "invalid-extinf" e s) { pending = none }
  after_extinf (inr entry) s = record s { pending = some (in_group s.current_group entry) }

  unfoldable pub on_extinf : CaseTable → String → Import K → Import K
  unfolding warn after_extinf
  on_extinf table line s =
      let warned =
        if is_some s.pending
        then warn "missing-stream" "nova entrada encontrada antes do URL da entrada anterior" s
        else s in
      after_extinf (parse_extinf table line) warned

  -- A line `#EXTGRP:`.
  unfoldable pub on_group : String → Import K → Import K
  unfolding in_group
  on_group line s = record s {
    current_group = group_of_line line;
    pending = regrouped (group_of_line line) s.pending;
  }

  -- The item of the pending entry and its URL.
  abbrev pub add_item : Item → Import K → Import K
  add_item item s = record s {
    batch = s.batch ++ item ∷ [];
    pending = none;
    summary = record s.summary { total = suc s.summary.total };
  }

  -- Any other line that is no comment: the URL of the pending entry.
  unfoldable pub with_pending :
      Catalogue → ParseOptions → Handler K → String → Option M3uEntry → Import K → Step K
  unfolding warn flush build_item
  with_pending c o handle line none s =
      go_on (warn "orphan-stream" "URL ignorada sem uma entrada EXTINF anterior" s)
  with_pending c o handle line (some entry) s =
      let added = add_item (build_item c entry line o) s in
      let flushed = flush handle added in
      if leb_ℤ o.max_items (pos s.summary.total)
      then stop s (limit_exceeded o.max_items)
      else if leb_ℤ o.batch_size (pos (length added.batch))
      then flushed
      else go_on added

  abbrev pub on_stream : Catalogue → ParseOptions → Handler K → String → Import K → Step K
  on_stream c o handle line s = with_pending c o handle line s.pending s

  -- One turn of the loop over the lines.
  unfoldable pub read_line : Catalogue → ParseOptions → Handler K → String → Import K → Step K
  unfolding on_extinf on_group with_pending
  read_line c o handle raw s =
      let line = clean_line raw in
      let numbered = record s { line_number = suc s.line_number } in
      if is_skipped c.table line
      then go_on numbered
      else if has_prefix (to_upper c.table line) "#EXTINF:"
      then go_on (on_extinf c.table line numbered)
      else if has_prefix (to_upper c.table line) "#EXTGRP:"
      then go_on (on_group line numbered)
      else if has_prefix line "#"
      then go_on numbered
      else on_stream c o handle line numbered

  -- Go on with `f`, where the function has not returned.
  unfoldable pub and_then : Step K → (Import K → Step K) → Step K
  and_then (go_on s) f = f s
  and_then (stop s e) f = stop s e

  unfoldable pub read_lines : Catalogue → ParseOptions → Handler K → List String → Import K → Step K
  unfolding read_line and_then
  read_lines c o handle [] s = go_on s
  read_lines c o handle (raw ∷ lines) s =
      and_then (read_line c o handle raw s) (read_lines c o handle lines)

  -- What comes after the loop.
  unfoldable pub after_scan : Handler K → Option String → Import K → Step K
  unfolding flush
  after_scan handle none s = flush handle s
  after_scan handle (some e) s = stop s (scan_failed e)

  unfoldable pub finish : Handler K → Option String → Import K → Step K
  unfolding warn after_scan
  finish handle scan_error s =
      after_scan handle scan_error (
        if is_some s.pending then warn "missing-stream" "entrada EXTINF sem URL de stream" s else s)

  abbrev pub start : K → Import K
  start k = record {
    summary = record { total = 0; warnings = [] };
    batch = [];
    pending = none;
    current_group = "";
    line_number = 0;
    handled = k;
  }

  -- The loop and what comes after it.
  unfoldable pub run :
      Catalogue → ParseOptions → Handler K → List String × Option String → K → Step K
  unfolding read_lines finish and_then
  run c o handle scanned k =
      and_then (read_lines c o handle scanned.0 (start k)) (finish handle scanned.1)

  -- `ParseM3UStream`; `none` stands for nil.
  unfoldable pub parse_m3u_stream :
      Catalogue → Option Reader → ParseOptions → Option (Handler K) → K → Step K
  unfolding run normalize_options
  parse_m3u_stream c none options handle k = stop (start k) reader_nil
  parse_m3u_stream c (some reader) options none k = stop (start k) handler_nil
  parse_m3u_stream c (some reader) options (some handle) k =
      let o = normalize_options options in run c o handle (reader o.max_line_bytes) k

-- The handler of `ParseM3U`.
abbrev pub collect : Handler (List Item)
collect items batch = (items ++ batch, none)

-- `ParseM3U`: the playlist, or the error.
unfoldable pub playlist_of : Step (List Item) → StreamError ⊎ Playlist
playlist_of (go_on s) = inr (record { items = s.handled; warnings = s.summary.warnings })
playlist_of (stop s e) = inl e

unfoldable pub parse_m3u : Catalogue → Option Reader → ParseOptions → StreamError ⊎ Playlist
unfolding parse_m3u_stream playlist_of
parse_m3u c reader options = playlist_of (parse_m3u_stream c reader options (some collect) [])
