-- ===== src/Domain/Rule/Reasons.antt =====
-- What `Explain` says of a rule that filters nothing.
use hummtube.Base.{◌≡◌, ◌≢◌, true, false, [], ◌∷◌, ◌++◌, arith, none, is_empty}
use hummtube.Domain.Playlist
use hummtube.Domain.Playlist.{PlaylistFilter}
use hummtube.Domain.Video.{Video}
use hummtube.Domain.Rule.{
  SmartRule, WatchState, is_zero, reason, reasons, explain, progress_reasons,
}

-- An explanation is never empty.
pub explain-ne-nil : (rule : SmartRule) (v : Video) (s : WatchState) → explain rule v s ≢ []
unfolding explain
explain-ne-nil rule v s = ground arith

-- What an empty filter says of the fields that `Explain` reads outside the filter's own test.
filter_off :
    (f : PlaylistFilter)
    → Playlist.is_zero f ≡ true
    → (is_empty f.channel ≡ true) × (f.favorite ≡ false)
unfolding Playlist.is_zero
filter_off f h = ground arith

reasons_of_is_zero :
    (rule : SmartRule) (v : Video) (s : WatchState)
    → is_zero rule ≡ true
    → reasons rule v s
      ≡ progress_reasons (s.progress v.id) ++ reason (s.favorite v.id) "salvo nos favoritos"
unfolding is_zero reasons
reasons_of_is_zero rule v s h = ground (arith, filter_off rule.filter)

-- A rule that filters nothing is explained by the personal state alone, and a video without
-- progress that is no favourite is explained by the fallback.
pub explain_of_is_zero :
    (rule : SmartRule) (v : Video) (s : WatchState)
    → is_zero rule ≡ true
    → (reasons rule v s
        ≡ progress_reasons (s.progress v.id) ++ reason (s.favorite v.id) "salvo nos favoritos")
      × (s.progress v.id ≡ none
          → s.favorite v.id ≡ false
          → explain rule v s ≡ "regra: sem filtros" ∷ [])
unfolding explain
explain_of_is_zero rule v s h =
    (reasons_of_is_zero rule v s h, λ p q. ground (arith, reasons_of_is_zero rule v s h))
