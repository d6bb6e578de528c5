-- ===== src/Playback/Failure/Matching.antt =====
-- How the table of markers classifies an output.
use hummtube.Base.{
  not, ◌≡◌, refl, true, false, Bool, String, List, [], ◌∷◌, ◌++◌, all, arith, contains, inl, inr,
  Bool-cases, if◌then◌else◌,
}
use hummtube.Domain.Vocabulary.{CaseTable, to_lower}
use hummtube.Playback.Failure.{
  failure_needles, describe, first_match, says_expired, classify_failure,
}
use hummtube.Playback.Failure.Kind.{
  FailureKind, unknown, bot_check, player, extractor_outdated, YtdlConfig,
}

-- The kinds that have a description of their own.
abbrev pub is_described : FailureKind → Bool
is_described player = false
is_described extractor_outdated = false
is_described _ = true

described : (k : FailureKind) (cfg : YtdlConfig) → is_described k ≡ true → (describe k cfg).kind ≡ k
unfolding describe
described bot_check cfg h = refl
described player cfg h = cc
described extractor_outdated cfg h = cc
described _ cfg h = refl

undescribed :
    (k : FailureKind) (cfg : YtdlConfig) → is_described k ≡ false → (describe k cfg).kind ≡ unknown
unfolding describe
undescribed player cfg h = refl
undescribed extractor_outdated cfg h = refl
undescribed bot_check cfg h = cc
undescribed _ cfg h = cc

-- A failure is described under its own kind, but for the errors of the player and the outdated
-- extractor, which the user is told of as unknown failures.
pub describe-kind :
    (k : FailureKind) (cfg : YtdlConfig)
    → (describe k cfg).kind ≡ (if is_described k then k else unknown)
describe-kind k cfg = elim (Bool-cases (is_described k)) [
  | inl y ↦ rw y (described k cfg y)
  | inr n ↦ rw n (undescribed k cfg n)
]

-- The marker does not stand in the text.
abbrev pub lacks : String → String × FailureKind → Bool
lacks lowered entry = not (contains lowered entry.0)

first_match-split :
    (lowered : String) (before after : List (String × FailureKind)) (marker : String)
    (k : FailureKind)
    → all (lacks lowered) before ≡ true
    → contains lowered marker ≡ true
    → first_match (before ++ (marker, k) ∷ after) lowered ≡ k
unfolding first_match
first_match-split lowered [] after marker k h found = rw found refl
first_match-split lowered ((m, j) ∷ before) after marker k h found =
    ground (arith, first_match-split lowered before after marker k)

first_match-unknown :
    (lowered : String) (table : List (String × FailureKind))
    → all (lacks lowered) table ≡ true
    → first_match table lowered ≡ unknown
unfolding first_match
first_match-unknown lowered [] h = refl
first_match-unknown lowered ((m, j) ∷ table) h = ground (arith, first_match-unknown lowered table)

all_middle :
    (p : String × FailureKind → Bool) (before after : List (String × FailureKind))
    (entry : String × FailureKind)
    → all p (before ++ entry ∷ after) ≡ true
    → p entry ≡ true
all_middle p [] after entry h = ground arith
all_middle p (e ∷ before) after entry h = all_middle p before after entry (ground arith)

needles_described : all (λ e. is_described e.1) failure_needles ≡ true
unfolding failure_needles
needles_described = refl

module _ (table : CaseTable) (sanitize : String → String) where
  -- Where the output says nothing of an expired address, it gets the kind of the first marker of
  -- the table that stands in it, whatever markers follow.
  pub classify_failure-first :
      (message : String) (cfg : YtdlConfig) (before after : List (String × FailureKind))
      (marker : String) (k : FailureKind)
      → failure_needles ≡ before ++ (marker, k) ∷ after
      → says_expired (to_lower table message) ≡ false
      → all (lacks (to_lower table message)) before ≡ true
      → contains (to_lower table message) marker ≡ true
      → (classify_failure table sanitize message cfg).kind ≡ k
  unfolding classify_failure
  classify_failure-first message cfg before after marker k split fresh none_before found =
      rw (fresh, split, first_match-split _ before after marker k none_before found)
        (described k cfg (
          all_middle (λ e. is_described e.1) before after (marker, k)
            (rw split at needles_described)))

  -- An output without any of the markers is an unknown failure.
  pub classify_failure-none :
      (message : String) (cfg : YtdlConfig)
      → says_expired (to_lower table message) ≡ false
      → all (lacks (to_lower table message)) failure_needles ≡ true
      → (classify_failure table sanitize message cfg).kind ≡ unknown
  unfolding classify_failure
  classify_failure-none message cfg fresh none_there =
      rw (fresh, first_match-unknown _ failure_needles none_there) (described unknown cfg refl)
