-- ===== src/Playback/Ytdlp/RawOptions.antt =====
-- internal/playback/ytdl.go: the settings of the extractor as one text for the player, pairs with
-- commas between them.
pub mod Split
use Prim.Native.String.{◌++◌ as append}
use hummtube.Base.{
  Bool, true, false, not, ◌||◌, ◌==◌, code, Char, String, List, [], ◌∷◌, ◌++◌, map, ◌⊎◌, inl, inr,
  is_empty, if◌then◌else◌,
}
use hummtube.Playback.Failure.Kind.{YtdlConfig, has_fixed_client}
use hummtube.Playback.Ytdlp.Args.{ArgsEnv, runtime_text, format_selector, pot_extractor_args}

-- The value of an option has a comma: the option and the value.
abbrev pub CommaError : Type 0
CommaError = String × String

-- `strings.ContainsAny(value, ",")`
unfoldable pub has_comma : String → Bool
has_comma String.[] = false
has_comma (String.◌∷◌ c s) = code c == b',' || has_comma s

abbrev pub put_pair : String → CommaError ⊎ List String → CommaError ⊎ List String
put_pair pair (inl e) = inl e
put_pair pair (inr pairs) = inr (pair ∷ pairs)

-- The calls of `add`, one for each option
unfoldable pub add_all : List (String × String) → CommaError ⊎ List String
unfolding has_comma
add_all [] = inr []
add_all ((key, value) ∷ options) =
    let rest = add_all options in
    if is_empty value
    then rest
    else if has_comma value
    then inl (key, value)
    else put_pair (append key (append "=" value)) rest

abbrev pub option_if : Bool → String → String → List (String × String)
option_if test key value = if test then (key, value) ∷ [] else []

-- The options that `add` is called with, in their order
unfoldable pub raw_pairs : ArgsEnv → YtdlConfig → List (String × String)
unfolding runtime_text format_selector pot_extractor_args
raw_pairs env c =
    ("js-runtimes", runtime_text c.js_runtime)
    ∷ (option_if (has_fixed_client c) "extractor-args"
          (append "youtube:player_client=" c.player_client)
        ++ (map (λ arg. ("extractor-args", arg)) (pot_extractor_args env c)
            ++ (option_if c.allow_remote_components "remote-components" "ejs:github"
                ++ (option_if (not (is_empty c.cookies_from_browser)) "cookies-from-browser"
                      c.cookies_from_browser
                    ++ (option_if (not (is_empty c.cookies_file)) "cookies" c.cookies_file
                        ++ ("format", format_selector c) ∷ [])))))

-- `strings.Join(pairs, ",")`
unfoldable pub join_commas : List String → String
join_commas [] = ""
join_commas (s ∷ []) = s
join_commas (s ∷ t ∷ pairs) = append s (append "," (join_commas (t ∷ pairs)))

abbrev pub joined : CommaError ⊎ List String → CommaError ⊎ String
joined (inl e) = inl e
joined (inr pairs) = inr (join_commas pairs)

-- `RawOptions`
unfoldable pub raw_options : ArgsEnv → YtdlConfig → CommaError ⊎ String
unfolding raw_pairs add_all join_commas
raw_options env c = joined (add_all (raw_pairs env c))
