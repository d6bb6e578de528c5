-- ===== src/Iptv/M3u/Items.antt =====
-- internal/iptv/m3u.go: what an entry is, and the item that is made of it. The compiled pattern of
-- episodes and the digest of an identity are parameters.
use hummtube.Base.{
  ℕ, Bool, true, false, ◌||◌, code, ◌+◌, ◌-◌, ◌*◌, String, List, [], ◌∷◌, Option, none, some,
  is_empty, is_some, any, itoa, str_eq, contains, if◌then◌else◌,
}
use Prim.Native.String.{◌++◌ as append}
use hummtube.Domain.Vocabulary.{CaseTable, to_lower}
use hummtube.Iptv.Model.{
  Item, ParseOptions, M3uEntry, EpisodeRef, content_kind_unknown, content_kind_tv,
  content_kind_movie, content_kind_series, classification_unknown, classification_attribute,
  classification_group, classification_title,
}

-- The tables of letter cases; the four groups of `seasonEpisodePattern.FindStringSubmatch`, `none`
-- where the pattern is not found; the digest of `stableItemID`, in hexadecimal.
pub record Catalogue : Type 0 where
  pub table : CaseTable
  pub find_episode : String → Option (String × String × String × String)
  pub digest : String → String

abbrev contains_any : String → List String → Bool
contains_any value terms = any (λ term. contains value term) terms

abbrev is_one_of : String → List String → Bool
is_one_of value terms = any (λ term. str_eq value term) terms

-- `classify`
unfoldable pub classify : Catalogue → M3uEntry → String × String
unfolding contains to_lower
classify c entry =
    let declared = to_lower c.table entry.content_type in
    let group = to_lower c.table entry.group in
    if is_one_of declared ("tv" ∷ "live" ∷ "channel" ∷ "canais" ∷ [])
    then (content_kind_tv, classification_attribute)
    else if is_one_of declared ("movie" ∷ "film" ∷ "filme" ∷ "vod-movie" ∷ [])
    then (content_kind_movie, classification_attribute)
    else if is_one_of declared ("series" ∷ "serie" ∷ "série" ∷ "show" ∷ "tvshow" ∷ [])
    then (content_kind_series, classification_attribute)
    else if is_some (c.find_episode entry.name)
    then (content_kind_series, classification_title)
    else if contains_any group (
        "série" ∷ "series" ∷ "serie" ∷ "temporada" ∷ "season" ∷ "tv show" ∷ "anime" ∷ "desenho"
        ∷ "cartoon" ∷ "animation" ∷ [])
    then (content_kind_series, classification_group)
    else if contains_any group ("filme" ∷ "filmes" ∷ "movie" ∷ "movies" ∷ "cinema" ∷ "vod" ∷ [])
    then (content_kind_movie, classification_group)
    else if contains_any group (
          "ao vivo" ∷ "live" ∷ "canais" ∷ "canal" ∷ "news" ∷ "notícias" ∷ "sports" ∷ "esportes"
          ∷ [])
        || str_eq group "tv"
    then (content_kind_tv, classification_group)
    else (content_kind_unknown, classification_unknown)

-- `strconv.Atoi` on a group of the pattern: at most three digits.
unfoldable pub atoi : ℕ → String → ℕ
atoi acc String.[] = acc
atoi acc (String.◌∷◌ c s) = atoi (acc * 10 + (code c - 0x30)) s

-- `parseEpisodeRef`
unfoldable pub parse_episode_ref : Catalogue → String → EpisodeRef
unfolding atoi
parse_episode_ref c name = elim (c.find_episode name) [
  | none ↦ record { season = 0; episode = 0; has_season = false; has_episode = false }
  | some (m1, m2, m3, m4) ↦
      if is_empty m1
      then record { season = atoi 0 m3; episode = atoi 0 m4; has_season = true; has_episode = true }
      else if is_empty m2
      then record { season = atoi 0 m1; episode = 0; has_season = true; has_episode = false }
      else record { season = atoi 0 m1; episode = atoi 0 m2; has_season = true; has_episode = true }
]

-- `strings.Join(parts, "\x00")`
unfoldable pub join_zero : List String → String
join_zero [] = ""
join_zero (s ∷ []) = s
join_zero (s ∷ t ∷ parts) = append s (append "\0" (join_zero (t ∷ parts)))

unfoldable pub identity_of : Catalogue → M3uEntry → String
unfolding join_zero itoa
identity_of c entry =
    let episode = parse_episode_ref c entry.name in
    if is_empty entry.id
    then join_zero (
        entry.name
        ∷ entry.group
        ∷ entry.channel
        ∷ entry.language
        ∷ entry.country
        ∷ itoa episode.season
        ∷ itoa episode.episode
        ∷ [])
    else entry.id

-- `stableItemID`
unfoldable pub stable_item_id : Catalogue → String → String → String → String
stable_item_id c source_id kind identity =
    append kind
      (append "-" (c.digest (append source_id (append "\0" (append kind (append "\0" identity))))))

-- `buildItem`
unfoldable pub build_item : Catalogue → M3uEntry → String → ParseOptions → Item
unfolding classify parse_episode_ref identity_of stable_item_id
build_item c entry stream_url o = record {
  id = stable_item_id c o.source_id (classify c entry).0 (identity_of c entry);
  source_id = o.source_id;
  source_name = o.source_name;
  kind = (classify c entry).0;
  classification = (classify c entry).1;
  title = entry.name;
  raw_title = entry.name;
  group = entry.group;
  logo_url = entry.logo_url;
  stream_url = stream_url;
  epg_id = entry.id;
  channel_number = entry.channel;
  language = entry.language;
  country = entry.country;
  episode = parse_episode_ref c entry.name;
}
