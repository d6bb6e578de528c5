-- ===== src/Playback/Ytdlp/RawOptions/Split.antt =====
-- The text, split at its commas, is the options again.
use Prim.Native.String.{◌++◌ as append}
use Prim.Native.String.append.{nil, cons}
use hummtube.Base.{
  sym, keep, find, any, some, ◌≡◌, refl, ap, ◌∙◌, Bool, true, false, not, ◌==◌, code, Char, String,
  List, [], ◌∷◌, map, ◌⊎◌, inl, inr, All, All-append, arith, Bool-cases, is_empty, if◌then◌else◌,
}
use hummtube.Playback.Failure.Kind.{YtdlConfig, has_fixed_client}
use hummtube.Playback.Ytdlp.Args.{ArgsEnv, pot_extractor_args}
use hummtube.Playback.Ytdlp.RawOptions.{
  CommaError, has_comma, put_pair, add_all, option_if, raw_pairs, join_commas, joined, raw_options,
}

-- A text split at its commas
abbrev pub put_first_char : Char → List String → List String
put_first_char c [] = String.◌∷◌ c "" ∷ []
put_first_char c (s ∷ parts) = String.◌∷◌ c s ∷ parts

unfoldable pub split_commas : String → List String
split_commas String.[] = "" ∷ []
split_commas (String.◌∷◌ c s) =
    let rest = split_commas s in if code c == b',' then "" ∷ rest else put_first_char c rest

has_comma-append :
    (s t : String) → has_comma s ≡ false → has_comma t ≡ false → has_comma (append s t) ≡ false
unfolding has_comma
has_comma-append String.[] t h k = rw (nil t) k
has_comma-append (String.◌∷◌ c s) t h k = rw (cons c s t) (ground (arith, has_comma-append s t))

split_commas-one : (s : String) → has_comma s ≡ false → split_commas s ≡ s ∷ []
unfolding split_commas has_comma
split_commas-one String.[] h = refl
split_commas-one (String.◌∷◌ c s) h = elim (Bool-cases (code c == b',')) [
  | inl y ↦ absurd (ground arith)
  | inr n ↦ rw n (rw (split_commas-one s (ground arith)) refl)
]

-- A comma
abbrev comma : Char
comma = ","

comma-append : (rest : String) → append "," rest ≡ String.◌∷◌ comma rest
comma-append rest = cons comma "" rest ∙ ap (λ s. String.◌∷◌ comma s) (nil rest)

split_commas-append :
    (s rest : String)
    → has_comma s ≡ false
    → split_commas (append s (append "," rest)) ≡ s ∷ split_commas rest
unfolding split_commas has_comma
split_commas-append String.[] rest h = rw (nil (append "," rest), comma-append rest) refl
split_commas-append (String.◌∷◌ c s) rest h = elim (Bool-cases (code c == b',')) [
  | inl y ↦ absurd (ground arith)
  | inr n ↦
      rw (cons c s (append "," rest)) (rw n (rw (split_commas-append s rest (ground arith)) refl))
]

split_commas-join_commas :
    (pair : String) (pairs : List String)
    → All (λ p. has_comma p ≡ false) (pair ∷ pairs)
    → split_commas (join_commas (pair ∷ pairs)) ≡ pair ∷ pairs
unfolding join_commas
split_commas-join_commas pair [] (h, _) = split_commas-one pair h
split_commas-join_commas pair (next ∷ pairs) (h, more) =
    split_commas-append pair (join_commas (next ∷ pairs)) h
    ∙ ap (λ rest. pair ∷ rest) (split_commas-join_commas next pairs more)

equals_plain : has_comma "=" ≡ false
unfolding has_comma
equals_plain = refl

-- An option's name has no comma.
abbrev IsPlain : String × String → Type 0
IsPlain option = has_comma option.0 ≡ false

-- An error, or pairs without a comma
abbrev ArePlain : CommaError ⊎ List String → Type 0
ArePlain (inl e) = Unit
ArePlain (inr pairs) = All (λ p. has_comma p ≡ false) pairs

put_pair-ArePlain :
    (pair : String) (x : CommaError ⊎ List String)
    → has_comma pair ≡ false
    → ArePlain x
    → ArePlain (put_pair pair x)
put_pair-ArePlain pair (inl e) p h = tt
put_pair-ArePlain pair (inr pairs) p h = (p, h)

add_all-ArePlain :
    (options : List (String × String)) → All IsPlain options → ArePlain (add_all options)
unfolding add_all
add_all-ArePlain [] h = tt
add_all-ArePlain ((key, value) ∷ options) (plain, h) = elim (Bool-cases (is_empty value)) [
  | inl y ↦ rw y (add_all-ArePlain options h)
  | inr n ↦ rw n (elim (Bool-cases (has_comma value)) [
    | inl y ↦ rw y tt
    | inr whole ↦ rw whole (
        put_pair-ArePlain (append key (append "=" value)) (add_all options)
          (has_comma-append key (append "=" value) plain
            (has_comma-append "=" value equals_plain whole))
          (add_all-ArePlain options h))
  ])
]

option_if-IsPlain :
    (test : Bool) (key value : String)
    → has_comma key ≡ false
    → All IsPlain (option_if test key value)
option_if-IsPlain true key value h = (h, tt)
option_if-IsPlain false key value h = tt

named-IsPlain :
    (key : String) (values : List String)
    → has_comma key ≡ false
    → All IsPlain (map (λ value. (key, value)) values)
named-IsPlain key [] h = tt
named-IsPlain key (value ∷ values) h = (h, named-IsPlain key values h)

raw_pairs-IsPlain : (env : ArgsEnv) (c : YtdlConfig) → All IsPlain (raw_pairs env c)
unfolding raw_pairs has_comma
raw_pairs-IsPlain env c = (
  refl,
  All-append IsPlain _ _ (option_if-IsPlain (has_fixed_client c) "extractor-args" _ refl) (
      All-append IsPlain _ _ (named-IsPlain "extractor-args" (pot_extractor_args env c) refl) (
        All-append IsPlain _ _
          (option_if-IsPlain c.allow_remote_components "remote-components" _ refl)
          (All-append IsPlain _ _
            (option_if-IsPlain (not (is_empty c.cookies_from_browser)) "cookies-from-browser" _
              refl)
            (All-append IsPlain _ _
              (option_if-IsPlain (not (is_empty c.cookies_file)) "cookies" _ refl) (refl, tt))))),
)

-- The options that are given, in their order, and an option as it is written
abbrev pub given : List (String × String) → List (String × String)
given options = keep (λ o. not (is_empty o.1)) options

abbrev pub key_value : String × String → String
key_value (key, value) = append key (append "=" value)

-- The first option whose value has a comma, or else every option that is given, as it is written
abbrev AreWritten : List (String × String) → CommaError ⊎ List String → Type 0
AreWritten options (inl e) = find (λ o. has_comma o.1) options ≡ some e
AreWritten options (inr pairs) =
    (any (λ o. has_comma o.1) options ≡ false) × (pairs ≡ map key_value (given options))

no_comma : (value : String) → is_empty value ≡ true → has_comma value ≡ false
unfolding has_comma
no_comma String.[] h = refl
no_comma (String.◌∷◌ c s) h = cc

skip-AreWritten :
    (key value : String) (options : List (String × String)) (x : CommaError ⊎ List String)
    → is_empty value ≡ true
    → AreWritten options x
    → AreWritten ((key, value) ∷ options) x
skip-AreWritten key value options (inl e) n h = rw (no_comma value n) h
skip-AreWritten key value options (inr pairs) n h = rw (no_comma value n, n) h

put_pair-AreWritten :
    (key value : String) (options : List (String × String)) (x : CommaError ⊎ List String)
    → is_empty value ≡ false
    → has_comma value ≡ false
    → AreWritten options x
    → AreWritten ((key, value) ∷ options) (put_pair (append key (append "=" value)) x)
put_pair-AreWritten key value options (inl e) n w h = rw w h
put_pair-AreWritten key value options (inr pairs) n w (clean, e) =
    rw (w, n) (clean, ap (λ l. append key (append "=" value) ∷ l) e)

add_all-AreWritten : (options : List (String × String)) → AreWritten options (add_all options)
unfolding add_all
add_all-AreWritten [] = (refl, refl)
add_all-AreWritten ((key, value) ∷ options) = elim (Bool-cases (is_empty value)) [
  | inl y ↦
      rw y (skip-AreWritten key value options (add_all options) y (add_all-AreWritten options))
  | inr n ↦ rw n (elim (Bool-cases (has_comma value)) [
    | inl y ↦ rw y (rw y refl)
    | inr whole ↦ rw whole (
        put_pair-AreWritten key value options (add_all options) n whole
          (add_all-AreWritten options))
  ])
]

-- The error names the first option whose value has a comma; a text is made only where none has one,
-- is empty only where no option is given, and else gives, split at its commas, `key=value` for each
-- option that is given, in their order.
abbrev pub IsRawText : List (String × String) → CommaError ⊎ String → Type 0
IsRawText options (inl e) = find (λ o. has_comma o.1) options ≡ some e
IsRawText options (inr text) =
    (any (λ o. has_comma o.1) options ≡ false)
    × (((given options ≡ []) × (text ≡ "")) ⊎ (split_commas text ≡ map key_value (given options)))

map-nil : (options : List (String × String)) → map key_value options ≡ [] → options ≡ []
map-nil [] h = refl
map-nil (o ∷ options) h = cc

join_commas-IsRawText :
    (options : List (String × String)) (pairs : List String)
    → ArePlain (inr pairs)
    → AreWritten options (inr pairs)
    → IsRawText options (inr (join_commas pairs))
unfolding join_commas
join_commas-IsRawText options [] plain (clean, e) =
    (clean, inl (map-nil (given options) (sym e), refl))
join_commas-IsRawText options (pair ∷ pairs) plain (clean, e) =
    (clean, inr (split_commas-join_commas pair pairs plain ∙ e))

joined-IsRawText :
    (options : List (String × String)) (x : CommaError ⊎ List String)
    → ArePlain x
    → AreWritten options x
    → IsRawText options (joined x)
joined-IsRawText options (inl e) plain h = h
joined-IsRawText options (inr pairs) plain h = join_commas-IsRawText options pairs plain h

-- Where the value of an option has a comma there is an error with the first such option. Else there
-- is a text, which the player may split at its commas: it gets `key=value` for every option with a
-- value, in their order, and the text is empty where there is none.
pub raw_options-split_commas :
    (env : ArgsEnv) (c : YtdlConfig) → IsRawText (raw_pairs env c) (raw_options env c)
unfolding raw_options
raw_options-split_commas env c =
    joined-IsRawText (raw_pairs env c) (add_all (raw_pairs env c))
      (add_all-ArePlain (raw_pairs env c) (raw_pairs-IsPlain env c))
      (add_all-AreWritten (raw_pairs env c))
