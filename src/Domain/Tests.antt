-- ===== src/Domain/Tests.antt =====
-- The theorems of internal/domain at concrete inputs.
use hummtube.Base.{◌≡◌, refl, false, [], none, some, pos, inl}
use hummtube.Domain.Vocabulary.{Time, minutes, CaseTable}
use hummtube.Domain.Video.{Video}
use hummtube.Domain.Feed.{FeedFilter}
use hummtube.Domain.Rule.{
  SmartRule, Json, WatchState, ok, no_filter, current_smart_rule_version, marshal, unmarshal,
  upgrade, validate,
}
use hummtube.Domain.Rule.Versions.{IsKnown, current, upgrade-marshal, upgrade-ok}

abbrev caseless : CaseTable
caseless = record { lower = λ c. c; upper = λ c. c; fold = λ c. c }

abbrev some_video : Video
some_video = record {
  id = "v";
  channel_id = "c";
  resource_type = "";
  external_url = "";
  view_count = pos 3;
  resource_item_count = pos 0;
  live_status = "is_live";
  channel_title = "";
  title = "t";
  description = "";
  description_excerpt = "";
  published_at = pos 5;
  duration = minutes 2;
  category = "Music";
  thumbnail_url = "";
  first_seen_at = pos 0;
  last_seen_at = pos 0;
  recommendation_reasons = [];
}

abbrev some_filter : FeedFilter
some_filter = record { content = "live"; age = "yesterday"; category = "" }

abbrev some_now : Time
some_now = minutes 5

abbrev some_rule : SmartRule
some_rule = record {
  version = current_smart_rule_version;
  filter = no_filter;
  sort = "";
  term = "";
  subscribed_only = false;
}

abbrev old_rule : SmartRule
old_rule = record some_rule { version = pos 0 }

-- A codec that knows one rule: what it decodes has no version.
abbrev one_rule : Json
one_rule = record { encode = λ r. "{}"; decode = λ text. some old_rule }

-- A codec that reads the current rule back.
abbrev same_rule : Json
same_rule = record { encode = λ r. "{1}"; decode = λ text. some some_rule }

upgrade-marshal_example :
    (unmarshal same_rule (marshal same_rule old_rule) ≡ ok some_rule)
    × (upgrade same_rule (marshal same_rule old_rule) (pos 0) ≡ ok some_rule)
upgrade-marshal_example = upgrade-marshal same_rule old_rule (pos 0) refl (inl refl)

upgrade-ok_example :
    (r₀ : SmartRule) × (one_rule.decode "{}" ≡ some r₀)
    × IsKnown r₀.version
    × IsKnown (pos 1)
    × (some_rule ≡ current r₀)
unfolding upgrade unmarshal validate
upgrade-ok_example = upgrade-ok one_rule "{}" (pos 1) refl

abbrev nothing_known : WatchState
nothing_known = record { progress = λ _. none; favorite = λ _. false }
