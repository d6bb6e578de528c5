-- ===== src/Iptv/M3u/Quiet.antt =====
-- The lines that deliver nothing: they leave the items alone and keep the warnings bounded.
use hummtube.Base.{
  ◌≤◌, ◌≡◌, refl, ap, ◌∙◌, String, [], ◌∷◌, Option, none, some, is_some, ◌⊎◌, inl, inr, length,
  length-append, Bool-cases, arith, if◌then◌else◌,
}
use hummtube.Domain.Vocabulary.{CaseTable}
use hummtube.Iptv.Model.{ParseWarning, M3uEntry}
use hummtube.Iptv.Extinf.{parse_extinf}
use hummtube.Iptv.M3u.{
  M3uStreamSummary, Import, add_parse_warning, max_parse_warnings, warn, in_group, after_extinf,
  on_extinf, on_group,
}

add_parse_warning_bounded :
    (m : M3uStreamSummary) (w : ParseWarning)
    → length m.warnings ≤ max_parse_warnings
    → length (add_parse_warning m w).warnings ≤ max_parse_warnings
unfolding add_parse_warning
add_parse_warning_bounded m w h = ground (arith, length-append m.warnings (w ∷ []))

add_parse_warning-total :
    (m : M3uStreamSummary) (w : ParseWarning) → (add_parse_warning m w).total ≡ m.total
unfolding add_parse_warning
add_parse_warning-total m w = ground arith

-- The entry that is pending after a line `#EXTINF:`.
abbrev pub entry_of : String → String ⊎ M3uEntry → Option M3uEntry
entry_of group (inl e) = none
entry_of group (inr entry) = some (in_group group entry)

module _ {K : Type 0} where
  -- A step from `s` to `t` that keeps the count, the batch and the handler's state.
  pub record IsQuiet (s t : Import K) : Type 0 where
    pub total_kept : t.summary.total ≡ s.summary.total
    pub batch_kept : t.batch ≡ s.batch
    pub handled_kept : t.handled ≡ s.handled
    pub warnings_bounded :
        length s.summary.warnings ≤ max_parse_warnings
        → length t.summary.warnings ≤ max_parse_warnings

  pub IsQuiet-refl : (s : Import K) → IsQuiet s s
  IsQuiet-refl s = record {
    total_kept = refl;
    batch_kept = refl;
    handled_kept = refl;
    warnings_bounded = λ h. h;
  }

  IsQuiet-trans : (s t u : Import K) → IsQuiet s t → IsQuiet t u → IsQuiet s u
  IsQuiet-trans s t u p q = record {
    total_kept = q.total_kept ∙ p.total_kept;
    batch_kept = q.batch_kept ∙ p.batch_kept;
    handled_kept = q.handled_kept ∙ p.handled_kept;
    warnings_bounded = λ h. q.warnings_bounded (p.warnings_bounded h);
  }

  pub warn-IsQuiet : (code message : String) (s : Import K) → IsQuiet s (warn code message s)
  unfolding warn
  warn-IsQuiet code message s = record {
    total_kept = add_parse_warning-total s.summary _;
    batch_kept = refl;
    handled_kept = refl;
    warnings_bounded = add_parse_warning_bounded s.summary _;
  }

  -- A warning where the entry before has no URL.
  pub warned-IsQuiet :
      (code message : String) (s : Import K)
      → IsQuiet s (if is_some s.pending then warn code message s else s)
  warned-IsQuiet code message s = elim (Bool-cases (is_some s.pending)) [
    | inl y ↦ rw y (warn-IsQuiet code message s)
    | inr n ↦ rw n (IsQuiet-refl s)
  ]

  set_pending-IsQuiet :
      (s t : Import K) (p : Option M3uEntry) → IsQuiet s t → IsQuiet s (record t { pending = p })
  set_pending-IsQuiet s t p q = record {
    total_kept = q.total_kept;
    batch_kept = q.batch_kept;
    handled_kept = q.handled_kept;
    warnings_bounded = q.warnings_bounded;
  }

  after_extinf-IsQuiet : (x : String ⊎ M3uEntry) (s : Import K) → IsQuiet s (after_extinf x s)
  unfolding after_extinf
  after_extinf-IsQuiet (inl e) s = set_pending-IsQuiet s _ none (warn-IsQuiet "invalid-extinf" e s)
  after_extinf-IsQuiet (inr entry) s = set_pending-IsQuiet s s _ (IsQuiet-refl s)

  pub on_extinf-IsQuiet :
      (table : CaseTable) (line : String) (s : Import K) → IsQuiet s (on_extinf table line s)
  unfolding on_extinf
  on_extinf-IsQuiet table line s =
      IsQuiet-trans s _ _ (warned-IsQuiet "missing-stream" _ s)
        (after_extinf-IsQuiet (parse_extinf table line) _)

  warned-group :
      (code message : String) (s : Import K)
      → (if is_some s.pending then warn code message s else s).current_group ≡ s.current_group
  unfolding warn
  warned-group code message s = elim (Bool-cases (is_some s.pending)) [
    | inl y ↦ rw y
    | inr n ↦ rw n
  ]

  after_extinf-pending :
      (x : String ⊎ M3uEntry) (s : Import K)
      → (after_extinf x s).pending ≡ entry_of s.current_group x
  unfolding after_extinf
  after_extinf-pending (inl e) s = refl
  after_extinf-pending (inr entry) s = refl

  after_extinf-group :
      (x : String ⊎ M3uEntry) (s : Import K) → (after_extinf x s).current_group ≡ s.current_group
  unfolding after_extinf warn
  after_extinf-group (inl e) s = refl
  after_extinf-group (inr entry) s = refl

  pub on_extinf-pending :
      (table : CaseTable) (line : String) (s : Import K)
      → (on_extinf table line s).pending ≡ entry_of s.current_group (parse_extinf table line)
  unfolding on_extinf
  on_extinf-pending table line s =
      after_extinf-pending (parse_extinf table line) _
      ∙ ap (λ g. entry_of g (parse_extinf table line)) (warned-group _ _ s)

  pub on_extinf-group :
      (table : CaseTable) (line : String) (s : Import K)
      → (on_extinf table line s).current_group ≡ s.current_group
  unfolding on_extinf
  on_extinf-group table line s = after_extinf-group (parse_extinf table line) _ ∙ warned-group _ _ s

  pub on_group-IsQuiet : (line : String) (s : Import K) → IsQuiet s (on_group line s)
  unfolding on_group
  on_group-IsQuiet line s = record {
    total_kept = refl;
    batch_kept = refl;
    handled_kept = refl;
    warnings_bounded = λ h. h;
  }
