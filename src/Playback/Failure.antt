-- ===== src/Playback/Failure.antt =====
-- internal/playback/failure.go: what the user is told about a failure, and how the output of the
-- extractor is classified. `sanitize`, which replaces what the regular expressions of package
-- `regexp` find, is a parameter.
pub mod Kind
mod Needles
pub mod Matching
use Prim.Native.String.{◌++◌ as append}
use hummtube.Base.{
  Bool, true, false, not, ◌&&◌, ◌||◌, String, List, [], ◌∷◌, is_empty, contains, if◌then◌else◌,
}
use hummtube.Domain.Vocabulary.{CaseTable, to_lower}
use Kind.{
  FailureKind, unknown, bot_check, rate_limited, no_formats, media_blocked, ytdlp_missing,
  unavailable, network, extractor_missing, js_runtime_missing, ejs_missing, pot_provider_missing,
  pot_generation, visitor_data_missing, extractor_timeout, extractor_output_limit, gvs_forbidden,
  drm, restricted, cookie_decryption, expired_media_url, Failure, YtdlConfig, is_found,
  has_fixed_client,
}
unfoldable pub use Needles.{failure_needles}

-- `extractionHint`
unfoldable pub extraction_hint : YtdlConfig → String
unfolding is_found
extraction_hint cfg =
    if not (is_found cfg.js_runtime)
    then "Falta um runtime JavaScript para o yt-dlp resolver os desafios do YouTube. Instale o Deno (recomendado) ou Node. Isto não tem relação com OAuth (Data API)."
    else if not cfg.allow_remote_components
    then "O runtime JS está presente, mas falta o script de compatibilidade (EJS). Ative Ajustes → Sistema → Reprodução e qualidade → Permitir baixar o solver EJS (ou defina NANOTUBE_YTDL_REMOTE_EJS=1)."
    else if has_fixed_client cfg
    then "Troque o cliente de extração para Automático em Configurações."
    else if is_empty cfg.pot_provider
    then "O modo automático tentou clientes compatíveis, mas nenhum abriu este vídeo. Instale um PO Token Provider para habilitar o caminho mweb attestado."
    else if is_empty cfg.cookies_from_browser && is_empty cfg.cookies_file
    then "O YouTube bloqueou este IP com verificação anti-bot. Selecione seu navegador ou importe um arquivo cookies.txt em Configurações → Extração (ou defina NANOTUBE_YTDL_COOKIES_FROM_BROWSER)."
    else "Extração configurada com runtime JS e cookies; pode ser bloqueio temporário do IP. Tente mais tarde."

abbrev blocked_hint : YtdlConfig → String
blocked_hint cfg =
    if has_fixed_client cfg
    then append "O cliente configurado (" (
        append cfg.player_client
          ") devolveu formatos bloqueados no download. Troque para Automático em Configurações.")
    else "Pode ser bloqueio temporário de IP ou token expirado. Tente novamente em instantes."

abbrev told : FailureKind → String → String → Failure
told k s h = record { kind = k; summary = s; hint = h; detail = "" }

-- `describe`; `botCheckSummary` is the summaries of its first two clauses.
unfoldable pub describe : FailureKind → YtdlConfig → Failure
unfolding extraction_hint
describe bot_check cfg =
    told bot_check "o YouTube pediu verificação anti-bot para extrair este vídeo"
      (extraction_hint cfg)
describe no_formats cfg =
    told no_formats "a extração não devolveu nenhuma faixa reproduzível" (extraction_hint cfg)
describe pot_provider_missing cfg =
    told pot_provider_missing "não foi possível obter a autorização de playback (PO Token)"
      "Verifique o PO Token Provider em Diagnóstico (`nanotube --diagnostics`)."
describe pot_generation cfg =
    told pot_generation "não foi possível obter a autorização de playback (PO Token)"
      "Verifique o PO Token Provider em Diagnóstico (`nanotube --diagnostics`)."
describe visitor_data_missing cfg =
    told visitor_data_missing "o YouTube não forneceu o Visitor Data obrigatório para este cliente"
      "Use a política Automática; se persistir, verifique EJS e PO Token Provider em Diagnóstico."
describe extractor_timeout cfg =
    told extractor_timeout "o yt-dlp excedeu o tempo limite de preparação"
      "Verifique a rede e tente novamente; a tentativa foi encerrada para não deixar subprocessos presos."
describe extractor_output_limit cfg =
    told extractor_output_limit "o yt-dlp produziu uma saída maior que o limite seguro"
      "Atualize o yt-dlp e verifique o diagnóstico; a saída foi descartada sem ser exibida integralmente."
describe js_runtime_missing cfg =
    told js_runtime_missing "runtime JavaScript não encontrado"
      "Instale o Deno (recomendado) ou Node para o yt-dlp resolver os desafios do YouTube."
describe ejs_missing cfg =
    told ejs_missing "script solucionador de desafios (EJS) ausente"
      "Defina NANOTUBE_YTDL_REMOTE_EJS=1 ou instale pacote EJS compatível."
describe rate_limited cfg =
    told rate_limited "o YouTube limitou as requisições deste IP (HTTP 429)"
      "Espere alguns minutos antes de tentar de novo. Repetir agora só prolonga o bloqueio."
describe media_blocked cfg =
    told media_blocked "o YouTube bloqueou o download da mídia deste vídeo (HTTP 403)"
      (blocked_hint cfg)
describe gvs_forbidden cfg =
    told gvs_forbidden "o YouTube bloqueou o download da mídia deste vídeo (HTTP 403)"
      (blocked_hint cfg)
describe ytdlp_missing cfg =
    told ytdlp_missing "yt-dlp não encontrado"
      "Instale o yt-dlp e confirme com `nanotube --diagnostics`."
describe extractor_missing cfg =
    told extractor_missing "yt-dlp não encontrado"
      "Instale o yt-dlp e confirme com `nanotube --diagnostics`."
describe drm cfg =
    told drm "vídeo protegido por DRM não suportado"
      "O NanoTube não reproduz conteúdo com criptografia DRM proprietária."
describe unavailable cfg =
    told unavailable "conteúdo indisponível (privado, removido ou live encerrada)"
      "Este vídeo não está mais disponível publicamente no YouTube."
describe restricted cfg =
    told restricted "vídeo restrito (membros ou confirmação de idade)"
      "Abra Entrar → Cookies, selecione o navegador e o cofre que contém uma sessão do YouTube com acesso."
describe cookie_decryption cfg =
    told cookie_decryption "não foi possível ler os cookies do navegador"
      "Abra Entrar → Cookies e selecione o cofre correto. No GNOME/Secret Service, use GNOME Keyring; no KDE, use KWallet."
describe network cfg =
    told network "falha de rede ao preparar o vídeo"
      "Verifique a conexão com a internet e tente de novo."
describe expired_media_url cfg =
    told expired_media_url "endereço temporário de vídeo expirado"
      "Solicitando nova resolução do stream..."
describe _ cfg =
    told unknown "não consegui preparar este vídeo"
      "Rode `nanotube --diagnostics` para inspecionar o estado do runtime."

-- The loop over the table.
unfoldable pub first_match : List (String × FailureKind) → String → FailureKind
first_match [] lowered = unknown
first_match ((marker, kind) ∷ table) lowered =
    if contains lowered marker then kind else first_match table lowered

-- The test that stands before the loop.
unfoldable pub says_expired : String → Bool
says_expired lowered =
    contains lowered "url has expired"
    || contains lowered "signature has expired"
    || contains lowered "requested media url has expired"

-- What an error of the extractor is, next to its text.
pub data ExtractorError : Type 0 where
  timed_out output_limit failed : ExtractorError

module _ (table : CaseTable) (sanitize : String → String) where
  -- `ClassifyFailure`
  unfoldable pub classify_failure : String → YtdlConfig → Failure
  classify_failure message cfg =
      let lowered = to_lower table message in
      if says_expired lowered
      then record (describe expired_media_url cfg) { detail = sanitize message }
      else record (describe (first_match failure_needles lowered) cfg) { detail = sanitize message }

  -- `classifyExtractorError`
  unfoldable pub classify_extractor_error : ExtractorError → String → YtdlConfig → Failure
  unfolding classify_failure
  classify_extractor_error timed_out message cfg = record (describe extractor_timeout cfg) {
    detail = sanitize message;
  }
  classify_extractor_error output_limit message cfg = record (describe extractor_output_limit cfg) {
    detail = sanitize message;
  }
  classify_extractor_error failed message cfg = record (classify_failure message cfg) {
    detail = sanitize message;
  }
