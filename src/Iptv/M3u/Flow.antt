-- ===== src/Iptv/M3u/Flow.antt =====
-- The bounds that an import keeps, whatever the playlist and the handler of batches.
use hummtube.Base.{
  suc, ◌≤◌, ◌<◌, pos, ◌≤ℤ◌, leb_ℤ, ◌≡◌, refl, sym, String, List, [], ◌∷◌, ◌++◌, Option, none, some,
  inl, inr, length, length-append, Bool-cases, arith, has_prefix,
}
use hummtube.Domain.Vocabulary.{to_upper}
use hummtube.Iptv.Model.{Item, ParseOptions, M3uEntry}
use hummtube.Iptv.M3u.{
  Import, Step, go_on, stop, Handler, Reader, max_parse_warnings, after_batch, hand_over, flush,
  with_pending, add_item, after_scan, and_then, read_line, read_lines, finish, run, start,
  parse_m3u_stream, normalize_options, clean_line, is_skipped,
}
use hummtube.Iptv.M3u.Items.{Catalogue, build_item}
use hummtube.Iptv.M3u.Quiet.{
  IsQuiet, warn-IsQuiet, warned-IsQuiet, on_extinf-IsQuiet, on_group-IsQuiet,
}

-- The state that a step ends in.
abbrev pub outcome : {K : Type 0} → Step K → Import K
outcome (go_on s) = s
outcome (stop s e) = s

module _ {K : Type 0} (P : K → Type 0) (c : Catalogue) (o : ParseOptions) (handle : Handler K)
    (keeps : (k : K) (batch : List Item)
      → P k
      → 0 < length batch
      → pos (length batch) ≤ℤ o.batch_size
      → P (handle k batch).0) where
  -- What holds at every return.
  abbrev IsBounded : Import K → Type 0
  IsBounded s =
      (pos s.summary.total ≤ℤ o.max_items)
      × (length s.summary.warnings ≤ max_parse_warnings)
      × P s.handled

  -- What holds between two lines: there is room in the batch, too.
  abbrev HasRoom : Import K → Type 0
  HasRoom s = IsBounded s × (pos (suc (length s.batch)) ≤ℤ o.batch_size)

  abbrev StepHolds : Step K → Type 0
  StepHolds (go_on s) = HasRoom s
  StepHolds (stop s e) = IsBounded s

  StepHolds→IsBounded : (st : Step K) → StepHolds st → IsBounded (outcome st)
  StepHolds→IsBounded (go_on s) h = h.0
  StepHolds→IsBounded (stop s e) h = h

  quiet-HasRoom : (s t : Import K) → IsQuiet s t → HasRoom s → HasRoom t
  quiet-HasRoom s t q ((a, b, p), r) =
      ((rw q.total_kept a, q.warnings_bounded b, rw q.handled_kept p), rw q.batch_kept r)

  after_batch-StepHolds :
      (s : Import K) (x : K × Option String)
      → pos s.summary.total ≤ℤ o.max_items
      → length s.summary.warnings ≤ max_parse_warnings
      → pos 1 ≤ℤ o.batch_size
      → P x.0
      → StepHolds (after_batch s x)
  unfolding after_batch
  after_batch-StepHolds s (k, none) a b r p = ((a, b, p), r)
  after_batch-StepHolds s (k, some e) a b r p = (a, b, p)

  -- A batch that is not empty is handed over whole.
  hand_over-StepHolds :
      (batch : List Item) (s : Import K)
      → IsBounded s
      → batch ≡ s.batch
      → pos (length batch) ≤ℤ o.batch_size
      → pos 1 ≤ℤ o.batch_size
      → StepHolds (hand_over handle batch s)
  unfolding hand_over
  hand_over-StepHolds [] s h e fits r = (h, rw (sym e) r)
  hand_over-StepHolds (x ∷ batch) s (a, b, p) e fits r =
      after_batch-StepHolds s _ a b r (keeps s.handled (x ∷ batch) p (omega arith) fits)

  flush-StepHolds :
      (s : Import K)
      → IsBounded s
      → pos (length s.batch) ≤ℤ o.batch_size
      → pos 1 ≤ℤ o.batch_size
      → StepHolds (flush handle s)
  unfolding flush
  flush-StepHolds s h fits r = hand_over-StepHolds s.batch s h refl fits r

  with_pending-StepHolds :
      (line : String) (pending : Option M3uEntry) (s : Import K)
      → HasRoom s
      → StepHolds (with_pending c o handle line pending s)
  unfolding with_pending
  with_pending-StepHolds line none s h = quiet-HasRoom s _ (warn-IsQuiet _ _ s) h
  with_pending-StepHolds line (some entry) s ((a, b, p), r) =
      let item = build_item c entry line o in
      let grown = length-append s.batch (item ∷ []) in
      elim (Bool-cases (leb_ℤ o.max_items (pos s.summary.total))) [
        | inl full ↦ rw full (a, b, p)
        | inr free ↦
            rw free (elim (Bool-cases (leb_ℤ o.batch_size (pos (length (s.batch ++ item ∷ []))))) [
              | inl due ↦ rw due (
                  flush-StepHolds (add_item item s) (ground arith, b, p) (ground arith)
                    (ground arith))
              | inr early ↦ rw early ((ground arith, b, p), ground arith)
            ])
      ]

  read_line-StepHolds :
      (raw : String) (s : Import K) → HasRoom s → StepHolds (read_line c o handle raw s)
  unfolding read_line
  read_line-StepHolds raw s h =
      let numbered = record s { line_number = suc s.line_number } in
      let line = clean_line raw in
      elim (Bool-cases (is_skipped c.table line)) [
        | inl a ↦ rw a h
        | inr a ↦ rw a (elim (Bool-cases (has_prefix (to_upper c.table line) "#EXTINF:")) [
          | inl b ↦ rw b (quiet-HasRoom numbered _ (on_extinf-IsQuiet c.table line numbered) h)
          | inr b ↦ rw b (elim (Bool-cases (has_prefix (to_upper c.table line) "#EXTGRP:")) [
            | inl d ↦ rw d (quiet-HasRoom numbered _ (on_group-IsQuiet line numbered) h)
            | inr d ↦ rw d (elim (Bool-cases (has_prefix line "#")) [
              | inl e ↦ rw e h
              | inr e ↦ rw e (with_pending-StepHolds line s.pending numbered h)
            ])
          ])
        ])
      ]

  and_then-StepHolds :
      (st : Step K) (f : Import K → Step K)
      → ((s : Import K) → HasRoom s → StepHolds (f s))
      → StepHolds st
      → StepHolds (and_then st f)
  unfolding and_then
  and_then-StepHolds (go_on s) f g h = g s h
  and_then-StepHolds (stop s e) f g h = h

  read_lines-StepHolds :
      (lines : List String) (s : Import K) → HasRoom s → StepHolds (read_lines c o handle lines s)
  unfolding read_lines
  read_lines-StepHolds [] s h = h
  read_lines-StepHolds (raw ∷ lines) s h =
      and_then-StepHolds _ _ (read_lines-StepHolds lines) (read_line-StepHolds raw s h)

  after_scan-StepHolds :
      (scan_error : Option String) (s : Import K)
      → HasRoom s
      → StepHolds (after_scan handle scan_error s)
  unfolding after_scan
  after_scan-StepHolds none s (h, r) = flush-StepHolds s h (omega (arith, r)) (omega (arith, r))
  after_scan-StepHolds (some e) s (h, r) = h

  finish-StepHolds :
      (scan_error : Option String) (s : Import K)
      → HasRoom s
      → StepHolds (finish handle scan_error s)
  unfolding finish
  finish-StepHolds scan_error s h =
      after_scan-StepHolds scan_error _ (quiet-HasRoom s _ (warned-IsQuiet _ _ s) h)

  run-StepHolds :
      (scanned : List String × Option String) (k : K)
      → pos 0 ≤ℤ o.max_items
      → pos 1 ≤ℤ o.batch_size
      → P k
      → StepHolds (run c o handle scanned k)
  unfolding run
  run-StepHolds scanned k m b p =
      and_then-StepHolds _ _ (finish-StepHolds scanned.1)
        (read_lines-StepHolds scanned.0 (start k) ((m, omega arith, p), b))

-- The limits are positive once they are normalised.
pub normalize_options-positive :
    (o : ParseOptions)
    → (pos 1 ≤ℤ (normalize_options o).max_items) × (pos 1 ≤ℤ (normalize_options o).batch_size)
unfolding normalize_options
normalize_options-positive o = (ground arith, ground arith)

-- Whatever the lines, the error of the scanner and the handler, an import returns with at most as
-- many items as the limit and at most 100 warnings; and what holds of the handler's state at the
-- start, and is kept by every batch of at least one item and at most the size of a batch, holds of
-- the handler's state at the end.
pub parse_m3u_stream-bounds :
    {K : Type 0} (P : K → Type 0) (c : Catalogue) (reader : Reader) (options : ParseOptions)
    (handle : Handler K)
    → ((k : K) (batch : List Item)
        → P k
        → 0 < length batch
        → pos (length batch) ≤ℤ (normalize_options options).batch_size
        → P (handle k batch).0)
    → (k : K) → P k
    → (pos (outcome (parse_m3u_stream c (some reader) options (some handle) k)).summary.total
        ≤ℤ (normalize_options options).max_items)
      × (length
            (outcome (parse_m3u_stream c (some reader) options (some handle) k)).summary.warnings
          ≤ max_parse_warnings)
      × P (outcome (parse_m3u_stream c (some reader) options (some handle) k)).handled
unfolding parse_m3u_stream
parse_m3u_stream-bounds P c reader options handle keeps k p =
    let o = normalize_options options in
    let (m, b) = normalize_options-positive options in
    StepHolds→IsBounded P c o handle keeps _
      (run-StepHolds P c o handle keeps (reader o.max_line_bytes) k (omega (arith, m)) b p)
