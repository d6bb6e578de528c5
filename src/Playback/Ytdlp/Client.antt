-- ===== src/Playback/Ytdlp/Client.antt =====
-- internal/playback/explicit_ytdlp.go: the resolver, one client of YouTube after another. What a run
-- of yt-dlp gives is a parameter, a function of its arguments.
pub mod Tried
use Prim.Native.String.{◌++◌ as append}
use hummtube.Base.{
  Bool, true, false, not, ◌&&◌, ◌||◌, String, List, [], ◌∷◌, ◌++◌, Option, none, some, ◌⊎◌, inl,
  inr, is_some, pos, is_empty, str_eq, trim_space, if◌then◌else◌,
}
use hummtube.Domain.Vocabulary.{CaseTable, equal_fold, playback_mode_direct}
use hummtube.Domain.Playback.{ResolvedStream, PlaybackRequest, PlaybackPlan}
use hummtube.Playback.Failure.Kind.{
  Failure, FailureKind, unknown, no_formats, pot_provider_missing, YtdlConfig, auto_player_client,
}
use hummtube.Playback.Failure.{describe, classify_failure, classify_extractor_error, ExtractorError}
use hummtube.Playback.Selection.{ResolveError, can_try_next_client, select_final_failure}
use hummtube.Playback.Ytdlp.Format.{Format, VideoInfo}
use hummtube.Playback.Ytdlp.Headers.{Url, resolved_stream_from_format}
use hummtube.Playback.Ytdlp.Pick.{select_muxed_format}
use hummtube.Playback.Ytdlp.Variants.{build_muxed_variants}
use hummtube.Playback.Ytdlp.Plan.{build_plan_from_info}
use hummtube.Playback.Ytdlp.Args.{ArgsEnv, command_args}

-- What a run of yt-dlp comes to: the context was done, the command failed (with its error output,
-- or else the error's text), or it printed an error output and JSON, which has the error of its
-- parsing or the answer.
pub data Ran : Type 0 where
  context_over : Ran
  command_failed : ExtractorError → String → Ran
  printed : String → String ⊎ VideoInfo → Ran

pub record Env : Type 0 where
  pub args : ArgsEnv
  pub sanitize : String → String
  pub parse : String → Option Url
  pub query : String → Option (String → String)
  pub binary : Option String
  pub pot_available : YtdlConfig → Bool
  pub run : List String → Ran

-- `Failure.Error`
unfoldable pub failure_text : Failure → String
failure_text f =
    if is_empty f.hint then f.summary else append f.summary (append " (" (append f.hint ")"))

abbrev pub ended : ResolveError
ended = record { failure = none; stopped = true; text = "" }

abbrev pub plain_failure : Failure → ResolveError
plain_failure f = record { failure = some f; stopped = false; text = failure_text f }

abbrev resolution : String → String → String
resolution client text = append "resolução yt-dlp (" (append client (append "): " text))

abbrev of_client : String → Failure → ResolveError
of_client client f = record (plain_failure f) { text = resolution client (failure_text f) }

abbrev is_unknown : FailureKind → Bool
is_unknown unknown = true
is_unknown _ = false

abbrev is_pot_missing : FailureKind → Bool
is_pot_missing pot_provider_missing = true
is_pot_missing _ = false

-- `selectFinalFailure` as an error; without a classified failure the errors are joined.
abbrev join_errors : List ResolveError → String
join_errors [] = ""
join_errors (e ∷ []) = e.text
join_errors (e ∷ f ∷ errors) = append e.text (append "\n" (join_errors (f ∷ errors)))

abbrev final_error : Option Failure → List ResolveError → ResolveError
final_error none failures = record { failure = none; stopped = false; text = join_errors failures }
final_error (some f) failures = plain_failure f

unfoldable pub final_failure : List ResolveError → ResolveError
unfolding select_final_failure failure_text
final_failure failures = final_error (select_final_failure failures) failures

abbrev pub Tried : Type 0
Tried = List String × (ResolveError ⊎ PlaybackPlan)

abbrev pub also_tried : String → Tried → Tried
also_tried client (clients, result) = (client ∷ clients, result)

abbrev pub is_last : List String → Bool
is_last [] = true
is_last _ = false

-- What an answer of a client leads to; `rest` is what the loop goes on with.
unfoldable pub after_client :
    List String
    → List ResolveError
    → (List ResolveError → Tried)
    → ResolveError ⊎ PlaybackPlan
    → Tried
unfolding final_failure can_try_next_client
after_client clients failures rest (inr plan) = ([], inr plan)
after_client clients failures rest (inl e) =
    let known = failures ++ e ∷ [] in
    if e.stopped
    then ([], inl e)
    else if is_last clients || not (can_try_next_client e)
    then ([], inl (final_failure known))
    else rest known

module _ (env : Env) where
  -- `isRemote`, on what `url.Parse` says of the trimmed text
  abbrev remote_parts : Option Url → Bool
  remote_parts none = false
  remote_parts (some (scheme, host)) =
      (str_eq scheme "http" || str_eq scheme "https") && not (is_empty host)

  unfoldable pub is_remote : String → Bool
  is_remote source = remote_parts (env.parse (trim_space source))

  -- A plan of separate tracks for a player that wants one file.
  unfoldable pub muxed_only :
      String → List Format → YtdlConfig → Option Format → PlaybackPlan → ResolveError ⊎ PlaybackPlan
  unfolding resolved_stream_from_format build_muxed_variants
  muxed_only client formats cfg none plan = inl (record {
    failure = none;
    stopped = false;
    text = resolution client "player web exige formato com áudio e vídeo combinados";
  })
  muxed_only client formats cfg (some f) plan = inr (record plan {
    primary = resolved_stream_from_format env.args.table f;
    audio = none;
    variants = build_muxed_variants env.args.table formats cfg.max_height;
  })

  unfoldable pub built :
      Bool
      → YtdlConfig
      → YtdlConfig
      → VideoInfo
      → String ⊎ PlaybackPlan
      → ResolveError ⊎ PlaybackPlan
  unfolding classify_failure muxed_only select_muxed_format
  built muxed cfg failure_cfg info (inl text) =
      let f = classify_failure env.args.table env.sanitize text failure_cfg in
      inl (
        of_client cfg.player_client (
          if is_unknown f.kind
          then record (describe no_formats failure_cfg) { detail = env.sanitize text }
          else f))
  built muxed cfg failure_cfg info (inr plan) =
      let one =
        muxed_only cfg.player_client info.formats cfg
          (select_muxed_format env.args.table cfg.max_height info.formats) plan in
      if muxed && is_some plan.audio then one else inr plan

  abbrev bad_json : YtdlConfig → String → ResolveError
  bad_json failure_cfg text =
      let f = record (describe unknown failure_cfg) {
        summary = "o yt-dlp devolveu uma resposta incompatível";
        hint = "Atualize o yt-dlp e tente novamente.";
        detail = env.sanitize text;
      } in
      record (plain_failure f) { text = append "parser json do yt-dlp: " (failure_text f) }

  unfoldable pub parsed :
      Bool → YtdlConfig → YtdlConfig → String ⊎ VideoInfo → ResolveError ⊎ PlaybackPlan
  unfolding built build_plan_from_info
  parsed muxed cfg failure_cfg (inl text) = inl (bad_json failure_cfg text)
  parsed muxed cfg failure_cfg (inr info) =
      built muxed cfg failure_cfg info
        (build_plan_from_info env.args.table env.parse env.query info cfg.max_height)

  unfoldable pub after_run : Bool → YtdlConfig → YtdlConfig → Ran → ResolveError ⊎ PlaybackPlan
  unfolding classify_failure classify_extractor_error parsed
  after_run muxed cfg failure_cfg context_over = inl ended
  after_run muxed cfg failure_cfg (command_failed e text) = inl (
      of_client cfg.player_client
        (classify_extractor_error env.args.table env.sanitize e text failure_cfg))
  after_run muxed cfg failure_cfg (printed stderr json) =
      let f = classify_failure env.args.table env.sanitize stderr failure_cfg in
      if str_eq cfg.player_client "mweb" && is_pot_missing f.kind
      then inl (of_client cfg.player_client f)
      else parsed muxed cfg failure_cfg json

  -- The arguments of a run for a target.
  unfoldable pub run_args : YtdlConfig → String → List String
  unfolding command_args
  run_args cfg target =
      "--dump-json"
      ∷ "--no-playlist"
      ∷ "--no-progress"
      ∷ (command_args env.args cfg ++ "--" ∷ target ∷ [])

  -- `resolveWithConfig`
  unfoldable pub resolve_with_config :
      Bool → String → YtdlConfig → YtdlConfig → ResolveError ⊎ PlaybackPlan
  unfolding run_args after_run
  resolve_with_config muxed target cfg failure_cfg =
      after_run muxed cfg failure_cfg (env.run (run_args cfg target))

  -- The loop of `Resolve`, with the clients for which yt-dlp was run.
  unfoldable pub try_clients : Bool → String → YtdlConfig → List ResolveError → List String → Tried
  unfolding after_client resolve_with_config
  try_clients muxed target cfg failures [] = ([], inl (final_failure failures))
  try_clients muxed target cfg failures (client ∷ clients) = also_tried client (
      after_client clients failures (λ known. try_clients muxed target cfg known clients)
        (resolve_with_config muxed target (record cfg { player_client = client }) cfg))

  -- A provider of tokens is set up, and can be had.
  unfoldable pub has_pot : YtdlConfig → Bool
  has_pot cfg = not (is_empty (trim_space cfg.pot_provider)) && env.pot_available cfg

  unfoldable pub clients_of : YtdlConfig → List String
  unfolding has_pot
  clients_of cfg =
      if is_empty cfg.player_client || str_eq cfg.player_client auto_player_client
      then (if has_pot cfg then "android" ∷ "mweb" ∷ [] else "android" ∷ [])
      else cfg.player_client ∷ []

  unfoldable pub target_of : PlaybackRequest → String
  target_of req =
      let source = trim_space req.source_url in
      if is_empty source && not (is_empty req.video_id)
      then append "https://www.youtube.com/watch?v=" req.video_id
      else source

  abbrev pub local_plan : String → PlaybackPlan
  local_plan target = record {
    mode = playback_mode_direct;
    load_target = target;
    options = ("ytdl-raw-options", "") ∷ [];
    primary = record { url = ""; headers = [] };
    audio = none;
    audio_only = none;
    variants = [];
    subtitles = [];
    metadata = record { video_id = ""; title = ""; duration = pos 0 };
    expires_at = pos 0;
  }

  -- The extractor's part of `Resolve`, where its binary was found.
  unfoldable pub resolve_remote : Bool → YtdlConfig → String → Tried
  unfolding has_pot clients_of try_clients equal_fold
  resolve_remote muxed cfg target =
      if equal_fold env.args.table (trim_space cfg.player_client) "mweb" && not (has_pot cfg)
      then ([], inl (plain_failure (describe pot_provider_missing cfg)))
      else try_clients muxed target cfg [] (clients_of cfg)

  abbrev with_binary : Option String → YtdlConfig → Tried → Tried
  with_binary none cfg found = (
    [],
    inl (plain_failure (classify_failure env.args.table env.sanitize "yt-dlp not found" cfg)),
  )
  with_binary (some _) cfg found = found

  -- `ExplicitYtDlpResolver.Resolve`, with the clients for which yt-dlp was run.
  unfoldable pub resolve : Bool → YtdlConfig → Bool → PlaybackRequest → Tried
  unfolding target_of is_remote resolve_remote classify_failure failure_text
  resolve muxed cfg context_done req =
      let target = target_of req in
      if context_done
      then ([], inl ended)
      else if not (is_remote target)
      then ([], inr (local_plan target))
      else with_binary env.binary cfg (resolve_remote muxed cfg target)
