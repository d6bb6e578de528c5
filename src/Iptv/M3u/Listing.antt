-- ===== src/Iptv/M3u/Listing.antt =====
-- What an import lists: the items of the lines one by one, without batches, limits and warnings.
use hummtube.Base.{
  suc, pos, ◌≤ℤ◌, leb_ℤ, ◌≡◌, refl, sym, ap, ◌∙◌, false, String, List, [], ◌∷◌, ◌++◌, Option, none,
  some, inl, inr, length, length-append, Bool-cases, arith, has_prefix, if◌then◌else◌,
}
use mathlib.Core.List.{append-nil, append_assoc}
use hummtube.Domain.Vocabulary.{to_upper}
use hummtube.Iptv.Model.{Item, ParseOptions, M3uEntry}
use hummtube.Iptv.Extinf.{parse_extinf}
use hummtube.Iptv.M3u.{
  Import, Step, go_on, stop, limit_exceeded, after_batch, hand_over, flush, regrouped,
  group_of_line, on_extinf, on_group, with_pending, add_item, and_then, read_line, read_lines,
  collect, clean_line, is_skipped,
}
use hummtube.Iptv.M3u.Items.{Catalogue, build_item}
use hummtube.Iptv.M3u.Quiet.{
  IsQuiet, IsQuiet-refl, warn-IsQuiet, on_extinf-IsQuiet, on_group-IsQuiet, entry_of,
  on_extinf-pending, on_extinf-group,
}

-- What is known between two lines: the entry that waits for its URL, and the group.
pub record Reading : Type 0 where
  pub pending : Option M3uEntry
  pub group : String

-- The items of a URL line.
abbrev listed_item : Catalogue → ParseOptions → String → Option M3uEntry → List Item
listed_item c o line none = []
listed_item c o line (some entry) = build_item c entry line o ∷ []

-- A line: what is known after it, and the items it completes.
unfoldable pub read_entry : Catalogue → ParseOptions → Reading → String → Reading × List Item
read_entry c o r raw =
    let line = clean_line raw in
    if is_skipped c.table line
    then (r, [])
    else if has_prefix (to_upper c.table line) "#EXTINF:"
    then (record r { pending = entry_of r.group (parse_extinf c.table line) }, [])
    else if has_prefix (to_upper c.table line) "#EXTGRP:"
    then (
      record { pending = regrouped (group_of_line line) r.pending; group = group_of_line line },
      [],
    )
    else if has_prefix line "#"
    then (r, [])
    else (record r { pending = none }, listed_item c o line r.pending)

unfoldable pub listing : Catalogue → ParseOptions → Reading → List String → List Item
unfolding read_entry
listing c o r [] = []
listing c o r (raw ∷ lines) = (read_entry c o r raw).1 ++ listing c o (read_entry c o r raw).0 lines

abbrev pub nothing_read : Reading
nothing_read = record { pending = none; group = "" }

abbrev pub reading : Import (List Item) → Reading
reading s = record { pending = s.pending; group = s.current_group }

-- The items of an import, those that wait in the batch included.
abbrev pub all_items : Import (List Item) → List Item
all_items s = s.handled ++ s.batch

module _ (c : Catalogue) (o : ParseOptions) where
  -- The step lists these items, or they are too many.
  abbrev pub Lists : Reading → List Item → Step (List Item) → Type 0
  Lists r items (go_on t) =
      (reading t ≡ r)
      × (all_items t ≡ items)
      × (t.summary.total ≡ length items)
      × (pos (length items) ≤ℤ o.max_items)
  Lists r items (stop t e) =
      (e ≡ limit_exceeded o.max_items) × (leb_ℤ (pos (length items)) o.max_items ≡ false)

  abbrev pub IsCounted : Import (List Item) → Type 0
  IsCounted s =
      (s.summary.total ≡ length (all_items s)) × (pos (length (all_items s)) ≤ℤ o.max_items)

  quiet-Lists :
      (s t : Import (List Item)) (r : Reading)
      → IsQuiet s t
      → reading t ≡ r
      → IsCounted s
      → Lists r (all_items s ++ []) (go_on t)
  quiet-Lists s t r q e (n, m) =
      rw (append-nil (all_items s)) (e, rw (q.handled_kept, q.batch_kept) refl, q.total_kept ∙ n, m)

  hand_over-Lists :
      (batch : List Item) (s : Import (List Item)) (items : List Item)
      → batch ≡ s.batch
      → all_items s ≡ items
      → s.summary.total ≡ length items
      → pos (length items) ≤ℤ o.max_items
      → Lists (reading s) items (hand_over collect batch s)
  unfolding hand_over after_batch
  hand_over-Lists [] s items b e n m = (refl, e, n, m)
  hand_over-Lists (x ∷ batch) s items b e n m =
      (refl, append-nil _ ∙ ap (λ l. s.handled ++ l) b ∙ e, n, m)

  flush-Lists :
      (s : Import (List Item)) (items : List Item)
      → all_items s ≡ items
      → s.summary.total ≡ length items
      → pos (length items) ≤ℤ o.max_items
      → Lists (reading s) items (flush collect s)
  unfolding flush
  flush-Lists s items e n m = hand_over-Lists s.batch s items refl e n m

  with_pending-Lists :
      (line : String) (pending : Option M3uEntry) (s : Import (List Item))
      → pending ≡ s.pending
      → IsCounted s
      → Lists
          (record { pending = none; group = s.current_group })
          (all_items s ++ listed_item c o line pending)
          (with_pending c o collect line pending s)
  unfolding with_pending
  with_pending-Lists line none s e h =
      quiet-Lists s _ _ (warn-IsQuiet _ _ s)
        (ap (λ p. record { pending = p; group = s.current_group }) (sym e)) h
  with_pending-Lists line (some entry) s e (n, m) =
      let item = build_item c entry line o in
      let grown = length-append (all_items s) (item ∷ []) in
      let joined = append_assoc s.handled s.batch (item ∷ []) in
      elim (Bool-cases (leb_ℤ o.max_items (pos s.summary.total))) [
        | inl full ↦ rw full (refl, ground arith)
        | inr free ↦
            rw free (elim (Bool-cases (leb_ℤ o.batch_size (pos (length (s.batch ++ item ∷ []))))) [
              | inl due ↦
                  rw due
                    (flush-Lists (add_item item s) _ (sym joined) (ground arith) (ground arith))
              | inr early ↦ rw early (refl, sym joined, ground arith, ground arith)
            ])
      ]

  read_line-Lists :
      (raw : String) (s : Import (List Item))
      → IsCounted s
      → Lists
          (read_entry c o (reading s) raw).0
          (all_items s ++ (read_entry c o (reading s) raw).1)
          (read_line c o collect raw s)
  unfolding read_line read_entry on_group
  read_line-Lists raw s h =
      let numbered = record s { line_number = suc s.line_number } in
      let line = clean_line raw in
      elim (Bool-cases (is_skipped c.table line)) [
        | inl a ↦ rw a (quiet-Lists numbered numbered _ (IsQuiet-refl numbered) refl h)
        | inr a ↦ rw a (elim (Bool-cases (has_prefix (to_upper c.table line) "#EXTINF:")) [
          | inl b ↦ rw b (
              quiet-Lists numbered (on_extinf c.table line numbered) _
                (on_extinf-IsQuiet c.table line numbered)
                (rw (on_extinf-pending c.table line numbered, on_extinf-group c.table line numbered)
                  refl)
                h)
          | inr b ↦ rw b (elim (Bool-cases (has_prefix (to_upper c.table line) "#EXTGRP:")) [
            | inl d ↦ rw d (
                quiet-Lists numbered (on_group line numbered) _ (on_group-IsQuiet line numbered)
                  refl h)
            | inr d ↦ rw d (elim (Bool-cases (has_prefix line "#")) [
              | inl e ↦ rw e (quiet-Lists numbered numbered _ (IsQuiet-refl numbered) refl h)
              | inr e ↦ rw e (with_pending-Lists line s.pending numbered refl h)
            ])
          ])
        ])
      ]

  abbrev pub last_reading : Reading → List String → Reading
  last_reading r [] = r
  last_reading r (raw ∷ lines) = last_reading (read_entry c o r raw).0 lines

  -- Too many items are too many with more behind them.
  and_then-Lists :
      (st : Step (List Item)) (f : Import (List Item) → Step (List Item)) (r r2 : Reading)
      (items more : List Item)
      → ((t : Import (List Item))
          → reading t ≡ r
          → all_items t ≡ items
          → IsCounted t
          → Lists r2 (items ++ more) (f t))
      → Lists r items st
      → Lists r2 (items ++ more) (and_then st f)
  unfolding and_then
  and_then-Lists (go_on t) f r r2 items more g (e, i, n, m) = g t e i (rw i (n, m))
  and_then-Lists (stop t x) f r r2 items more g (e, n) =
      (e, let grown = length-append items more in ground arith)

  pub read_lines-Lists :
      (lines : List String) (s : Import (List Item))
      → IsCounted s
      → Lists
          (last_reading (reading s) lines)
          (all_items s ++ listing c o (reading s) lines)
          (read_lines c o collect lines s)
  unfolding read_lines listing
  read_lines-Lists [] s (n, m) = rw (append-nil (all_items s)) (refl, refl, n, m)
  read_lines-Lists (raw ∷ lines) s h =
      let x = read_entry c o (reading s) raw in
      rw (sym (append_assoc (all_items s) x.1 (listing c o x.0 lines))) (
        and_then-Lists (read_line c o collect raw s) (read_lines c o collect lines) x.0 _
          (all_items s ++ x.1) (listing c o x.0 lines)
          (λ t e i k. rw (sym e, sym i) (read_lines-Lists lines t k)) (read_line-Lists raw s h))
