-- ===== src/Lib.antt =====
-- HummTube: a local video client (Go). This library models its core rules and proves them correct.
--
-- The parts and where they are modelled:
--   internal/domain      Domain: Vocabulary.antt (the named strings and their constants), Video.antt,
--                        Search.antt and Playback.antt (the records), Feed.antt (the filter of a feed),
--                        Playlist.antt (the filter of a playlist), Rule.antt (versioned smart rules)
--   internal/search      Search: Options.antt (`NormalizeOptions`, `RequiresOfficialAPI`),
--                        Options/Validate.antt and its children (`ValidateOptions` and its patterns),
--                        Local.antt (`ApplyLocalFilters`, `sortResults`)
--   internal/playback    Playback: Controller.antt (controller.go, the concurrent core), Commands.antt
--                        (the commands that are passed on to the player), Cache.antt (cache.go),
--                        Failure.antt and its children (failure.go), Selection.antt (which failure
--                        counts, explicit_ytdlp.go), Cascade.antt (cascading.go), and in Ytdlp the rest of
--                        explicit_ytdlp.go: Format.antt (a format), Headers.antt (the headers of a
--                        stream), Pick.antt (the choice of formats), Variants.antt (the qualities that
--                        are offered), Plan.antt (the plan), Client.antt (the loop over clients); and
--                        Args.antt and RawOptions.antt (ytdl.go: the arguments of yt-dlp, and the
--                        options for the player). In Proxy (media_proxy.go):
--                        Target.antt (where it may go), Sessions.antt (the table of sessions),
--                        Access.antt (the lookup by a request), Wrap.antt (a plan with local URLs),
--                        Hls.antt (manifests), Serve.antt (the handler), Calls.antt (any sequence of
--                        calls)
--   internal/iptv        Iptv: Model.antt (model.go), and of m3u.go Extinf.antt (the line `#EXTINF:` and
--                        its attributes), M3u/Items.antt (the item of an entry), M3u.antt (the loop over
--                        the lines, and its batches); Network.antt (network.go: which addresses are
--                        connected to)
-- The controller asks the cascade for a plan; the cascade asks its cache and then its providers, and
-- reads their errors through the classification of failures. The main provider runs yt-dlp, for one
-- client of YouTube after another, and makes a plan of the formats it lists. The proxy gives the web
-- player local URLs for the media of a plan. The search page normalises and checks its options, asks
-- a provider, and filters the results with the rules of the domain.
--
-- How the code is read:
--   - An instant or a duration is a whole number of nanoseconds, the zero `time.Time` is 0. Arithmetic
--     on them does not wrap in the model: sums stay far inside 64 bits for the dates the program meets.
--     The seconds that a URL or yt-dlp states are not bounded, and `time.Unix` of them wraps as an int64.
--     The generation of the controller is a uint64 and wraps; theorems that need it say that it has room.
--   - A text is a sequence of characters; `len` counts bytes and `utf8.RuneCountInString` characters.
--     A manifest is a sequence of bytes, with `strings.ToUpper` on them as a parameter; a slice out of
--     range, where the code panics, is a result of its own.
--     The tables of letter cases of package `unicode` are a parameter (`CaseTable`).
--   - A Go map that is only looked up is a function; one that is ranged over is a list of its entries in
--     any order. `encoding/json`, `net/url`, the replacements of `sanitize`, the player and the
--     providers are parameters or part of an environment whose answers are given.
--   - The controller is a system of threads: an action is what one thread does between two points at
--     which another can run. Every schedule is a list of actions. The cascade's calls run one after
--     another: the merging of calls in flight is not modelled.
--   - The lines of a playlist are what `bufio.Scanner` makes of a reader, with the error it ended with;
--     the pattern of episodes and SHA-256 are parameters, and the handler of batches has any state.
--   - What a run of yt-dlp comes to is a function of its arguments; `encoding/json` and `net/url` are
--     parameters, and so is what the disk says of the plugins of the extractor. A bit rate, a float of
--     kilobits per second, is a whole number of thousandths.
--   - The proxy reads its clock once in a call. The context of a plan is over when its deadline has
--     come or another plan has taken its place; `rand.Read` is a sequence of tokens, which theorems that
--     need it take to be texts of 48 hexadecimal digits or at least not empty.
--   - An address of package `netip` is its number with its zone; the parsing of literals, the resolver
--     and the dials are parameters.
--   - Loops run over lists and texts. The loop over attributes runs on fuel, one turn for each
--     character of the text, and so does `strconv.Itoa`, one turn for each unit of the number,
--     the loop over the URIs of a line of a manifest, one turn for each byte of the line, and the loop that
--     makes room in the table of sessions, one turn for each entry.
--
-- Not modelled: storage (SQL), the servers, the desktop shell, authentication, synchronisation, the
-- other parts of IPTV, backup, the subprocesses of the extractors, and the check of coordinates in
-- `validateLocation`, which is about floats and a parameter here.
pub mod Base
pub mod Domain
pub mod Search
pub mod Playback
pub mod Iptv
