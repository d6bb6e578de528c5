-- ===== src/Domain/Rule.antt =====
-- internal/domain/smart_rule.go: versioned rules of smart playlists, and the reasons of a match.
-- The JSON text of a rule is read and written by `encoding/json`, which is a parameter.
pub mod Versions
pub mod Reasons
use hummtube.Base.{
  ℤ, pos, ltb_ℤ, eqb_ℤ, Bool, true, false, not, ◌&&◌, String, List, [], ◌∷◌, ◌++◌, Option, none,
  some, str_eq, is_empty, if◌then◌else◌,
}
use Prim.Native.String.{◌++◌ as append}
use hummtube.Domain.Vocabulary.{
  search_watch_any, feed_all, feed_age_week, playlist_sort_published, playlist_sort_added,
  playlist_sort_duration, search_watch_unwatched, search_watch_continue, search_duration_medium,
}
use hummtube.Domain.Video.{Video, ProgressInfo}
use hummtube.Domain.Playlist
use hummtube.Domain.Playlist.{PlaylistFilter}

abbrev pub current_smart_rule_version : ℤ
current_smart_rule_version = pos 1

pub record SmartRule : Type 0 where
  pub version : ℤ
  pub filter : PlaylistFilter
  pub sort : String
  pub term : String
  pub subscribed_only : Bool

pub data RuleError : Type 0 where
  invalid_json : RuleError
  unsupported : ℤ → RuleError
  future_version : ℤ → RuleError
  inconsistent : ℤ → ℤ → RuleError

pub data Result (A : Type 0) : Type 0 where
  ok : A → Result A
  err : RuleError → Result A

infixl 5 ◌>>=◌
abbrev pub ◌>>=◌ : {A B : Type 0} → Result A → (A → Result B) → Result B
ok a >>= f = f a
err e >>= f = err e

-- `SmartRule.IsZero`
unfoldable pub is_zero : SmartRule → Bool
is_zero r = Playlist.is_zero r.filter && is_empty r.sort && is_empty r.term && not r.subscribed_only

-- `SmartRule.Validate`
unfoldable pub validate : SmartRule → Option RuleError
validate r =
    if not (eqb_ℤ r.version current_smart_rule_version) then some (unsupported r.version) else none

-- `encoding/json` on rules: `Marshal` and `Unmarshal`.
pub record Json : Type 0 where
  pub encode : SmartRule → String
  pub decode : String → Option SmartRule

abbrev pub or_fail : SmartRule → Option RuleError → Result SmartRule
or_fail r none = ok r
or_fail r (some e) = err e

module _ (json : Json) where
  -- `MarshalSmartRule`
  unfoldable pub marshal : SmartRule → String
  marshal r = json.encode (record r { version = current_smart_rule_version })

  abbrev read : String → Result SmartRule
  read text = elim (json.decode text) [ none ↦ err invalid_json | some r ↦ ok r ]

  -- The rule that a decoded one stands for: with no version it has the current one.
  abbrev assume_version : SmartRule → SmartRule
  assume_version r =
      if eqb_ℤ r.version (pos 0) then record r { version = current_smart_rule_version } else r

  -- `UnmarshalSmartRule`
  unfoldable pub unmarshal : String → Result SmartRule
  unmarshal text = do
    r ← read text
    if ltb_ℤ current_smart_rule_version r.version
        then err (future_version r.version)
        else or_fail (assume_version r) (validate (assume_version r))

  -- `UpgradeSmartRule`
  unfoldable pub upgrade : String → ℤ → Result SmartRule
  upgrade text from_version =
      if ltb_ℤ current_smart_rule_version from_version
      then err (future_version from_version)
      else do
        rule ← unmarshal text
        if not (eqb_ℤ from_version (pos 0)) && not (eqb_ℤ rule.version from_version)
            then err (inconsistent from_version rule.version)
            else ok rule

-- The zero `PlaylistFilter`.
abbrev pub no_filter : PlaylistFilter
no_filter = record {
  channel = "";
  duration = "";
  min_duration = pos 0;
  max_duration = pos 0;
  age = "";
  category = "";
  watched = "";
  favorite = false;
  content = "";
  shorts_only = false;
}

abbrev preset : PlaylistFilter → String → Bool → SmartRule
preset f key subscribed = record {
  version = current_smart_rule_version;
  filter = f;
  sort = key;
  term = "";
  subscribed_only = subscribed;
}

-- `BuiltInPresets`, as the list of the map's entries
unfoldable pub built_in_presets : List (String × SmartRule)
built_in_presets =
    (
      "nao_assistidos_inscricoes",
      preset (record no_filter { watched = search_watch_unwatched; age = feed_age_week })
          playlist_sort_published true,
    )
    ∷ (
      "continuar",
      preset (record no_filter { watched = search_watch_continue }) playlist_sort_added false,
    )
    ∷ (
      "favoritos_recentes",
      preset (record no_filter { favorite = true }) playlist_sort_added false,
    )
    ∷ (
      "canal_duracao",
      preset (record no_filter { duration = search_duration_medium }) playlist_sort_duration false,
    )
    ∷ []

-- The personal state that `Explain` reads. A Go map is the function of its lookups: the empty one
-- also stands for nil, on which every lookup fails.
pub record WatchState : Type 0 where
  pub progress : String → Option ProgressInfo
  pub favorite : String → Bool

-- `if test { reasons = append(reasons, label) }`
abbrev pub reason : Bool → String → List String
reason test label = if test then label ∷ [] else []

-- The reasons that the filter gives.
unfoldable pub filter_reasons : PlaylistFilter → List String
filter_reasons f =
    if Playlist.is_zero f
    then []
    else reason f.favorite "favorito"
      ++ (reason (not (is_empty f.watched) && not (str_eq f.watched search_watch_any)) f.watched
          ++ (reason f.shorts_only "Shorts"
              ++ reason (not (is_empty f.content) && not (str_eq f.content feed_all)) f.content))

-- The reasons that the progress in the video gives.
unfoldable pub progress_reasons : Option ProgressInfo → List String
progress_reasons none = []
progress_reasons (some p) =
    if p.completed then "já assistido" ∷ [] else reason (ltb_ℤ (pos 0) p.position) "em andamento"

-- All the reasons, before the fallback.
unfoldable pub reasons : SmartRule → Video → WatchState → List String
unfolding filter_reasons progress_reasons
reasons rule video state =
    reason (not (is_empty rule.filter.channel)) (append "canal: " rule.filter.channel)
    ++ (filter_reasons rule.filter
        ++ (reason (not (is_empty rule.term)) (append "termo: " rule.term)
            ++ (reason rule.subscribed_only "inscrição"
                ++ (progress_reasons (state.progress video.id)
                    ++ reason (state.favorite video.id && not rule.filter.favorite)
                        "salvo nos favoritos"))))

abbrev or_default : List String → List String
or_default [] = "regra: sem filtros" ∷ []
or_default (r ∷ rs) = r ∷ rs

-- `Explain`
unfoldable pub explain : SmartRule → Video → WatchState → List String
unfolding reasons
explain rule video state = or_default (reasons rule video state)
