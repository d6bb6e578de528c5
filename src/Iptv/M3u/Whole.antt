-- ===== src/Iptv/M3u/Whole.antt =====
-- `ParseM3U` against the list of items that its lines make.
use hummtube.Base.{
  pos, leb_ℤ, ◌≡◌, refl, sym, ap, ◌∙◌, String, List, [], ◌∷◌, ◌++◌, Option, none, some, ◌⊎◌, inl,
  inr, length, arith, if◌then◌else◌, Bool-cases,
}
use mathlib.Core.List.{append-nil}
use hummtube.Iptv.Model.{Item, Playlist, ParseOptions}
use hummtube.Iptv.M3u.{
  Import, Step, go_on, stop, Reader, StreamError, limit_exceeded, scan_failed, after_batch,
  hand_over, flush, after_scan, and_then, finish, run, start, parse_m3u_stream, playlist_of,
  parse_m3u, collect, normalize_options,
}
use hummtube.Iptv.M3u.Items.{Catalogue}
use hummtube.Iptv.M3u.Quiet.{warned-IsQuiet}
use hummtube.Iptv.M3u.Flow.{normalize_options-positive}
use hummtube.Iptv.M3u.Listing.{nothing_read, Reading, all_items, listing, Lists, read_lines-Lists}

-- The items, unless the scanner failed.
abbrev answer : Option String → List Item → StreamError ⊎ List Item
answer none items = inr items
answer (some e) items = inl (scan_failed e)

-- The items of a reader that ended without an error and within the limit; else the error.
unfoldable pub imported :
    Catalogue → ParseOptions → List String × Option String → StreamError ⊎ List Item
unfolding listing
imported c o (lines, scan_error) =
    let items = listing c o nothing_read lines in
    if leb_ℤ (pos (length items)) o.max_items
    then answer scan_error items
    else inl (limit_exceeded o.max_items)

abbrev pub items_of : StreamError ⊎ Playlist → StreamError ⊎ List Item
items_of (inl e) = inl e
items_of (inr playlist) = inr playlist.items

-- What `ParseM3U` makes of the end of the stream.
abbrev handed : Step (List Item) → StreamError ⊎ List Item
handed (go_on s) = inr s.handled
handed (stop s e) = inl e

hand_over-handed :
    (batch : List Item) (s : Import (List Item))
    → batch ≡ s.batch
    → handed (hand_over collect batch s) ≡ inr (all_items s)
unfolding hand_over after_batch
hand_over-handed [] s e = ap inr (sym (append-nil s.handled) ∙ ap (λ b. s.handled ++ b) e)
hand_over-handed (x ∷ batch) s e = ap inr (ap (λ b. s.handled ++ b) e)

after_scan-handed :
    (scan_error : Option String) (s : Import (List Item))
    → handed (after_scan collect scan_error s) ≡ answer scan_error (all_items s)
unfolding after_scan flush
after_scan-handed none s = hand_over-handed s.batch s refl
after_scan-handed (some e) s = refl

finish-handed :
    (scan_error : Option String) (s : Import (List Item))
    → handed (finish collect scan_error s) ≡ answer scan_error (all_items s)
unfolding finish
finish-handed scan_error s =
    let q = warned-IsQuiet "missing-stream" "entrada EXTINF sem URL de stream" s in
    after_scan-handed scan_error _ ∙ ap (answer scan_error) (rw (q.handled_kept, q.batch_kept) refl)

-- From what the loop lists to what the stream hands over.
and_then-handed :
    (c : Catalogue) (o : ParseOptions) (lines : List String) (scan_error : Option String)
    (r : Reading) (st : Step (List Item))
    → Lists c o r (listing c o nothing_read lines) st
    → handed (and_then st (finish collect scan_error)) ≡ imported c o (lines, scan_error)
unfolding and_then imported
and_then-handed c o lines scan_error r (go_on s) (e, i, n, m) =
    finish-handed scan_error s
    ∙ rw i (elim (Bool-cases (leb_ℤ (pos (length (listing c o nothing_read lines))) o.max_items)) [
      | inl within ↦ rw within refl
      | inr beyond ↦ ground arith
    ])
and_then-handed c o lines scan_error r (stop s x) (e, n) = rw n (ap inl e)

items_of-playlist_of : (st : Step (List Item)) → items_of (playlist_of st) ≡ handed st
unfolding playlist_of
items_of-playlist_of (go_on s) = refl
items_of-playlist_of (stop s e) = refl

-- Without a look at the warnings, `ParseM3U` returns exactly the items that the lines make one by
-- one, in their order, whatever the size of a batch; an import with more items than the limit, or
-- whose scanner failed, returns the error, and the excess counts before the scanner's error.
pub parse_m3u-imported :
    (c : Catalogue) (reader : Reader) (options : ParseOptions)
    → items_of (parse_m3u c (some reader) options)
      ≡ imported c (normalize_options options) (reader (normalize_options options).max_line_bytes)
unfolding parse_m3u parse_m3u_stream run
parse_m3u-imported c reader options =
    let o = normalize_options options in
    items_of-playlist_of _
    ∙ and_then-handed c o (reader o.max_line_bytes).0 (reader o.max_line_bytes).1 _ _ (
        read_lines-Lists c o (reader o.max_line_bytes).0 (start [])
          (refl, let (m, b) = normalize_options-positive options in omega (arith, m)))
