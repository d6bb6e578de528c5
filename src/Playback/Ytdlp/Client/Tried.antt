-- ===== src/Playback/Ytdlp/Client/Tried.antt =====
-- Which clients are tried, and which of them decides.
use hummtube.Base.{
  ◌≡◌, ◌≢◌, refl, sym, ap, ◌∙◌, Bool, true, false, not, ◌&&◌, ◌||◌, String, List, [], ◌∷◌, ◌++◌,
  ◌⊎◌, inl, inr, all, any, arith, Bool-cases, Option-cases, both_true, str_eq, str_eq→eq,
  str_eq_refl, is_empty, trim_space,
}
use hummtube.Domain.Vocabulary.{CaseTable, equal_fold}
use hummtube.Domain.Playback.{PlaybackRequest, PlaybackPlan}
use hummtube.Playback.Failure.Kind.{YtdlConfig, auto_player_client}
use hummtube.Playback.Selection.{ResolveError, can_try_next_client}
use hummtube.Playback.Ytdlp.Client.{
  Env, Tried, also_tried, after_client, try_clients, resolve_with_config, is_last, has_pot,
  clients_of, target_of, is_remote, resolve_remote, resolve,
}

-- The answer is an error that leaves the loop open.
abbrev pub passes : ResolveError ⊎ PlaybackPlan → Bool
passes (inl e) = not e.stopped && can_try_next_client e
passes (inr plan) = false

module _ (env : Env) (muxed : Bool) (target : String) (cfg : YtdlConfig) where
  abbrev pub asked : String → ResolveError ⊎ PlaybackPlan
  asked client = resolve_with_config env muxed target (record cfg { player_client = client }) cfg

  after_client-passes :
      (clients : List String) (failures : List ResolveError) (rest : List ResolveError → Tried)
      (x : ResolveError ⊎ PlaybackPlan) (result : Tried)
      → passes x ≡ true
      → is_last clients ≡ false
      → ((known : List ResolveError) → rest known ≡ result)
      → after_client clients failures rest x ≡ result
  unfolding after_client
  after_client-passes clients failures rest (inl e) result h l r =
      let (going, next) = both_true (not e.stopped) (can_try_next_client e) h in
      elim (Bool-cases e.stopped) [
        | inl y ↦ ground arith
        | inr n ↦ simp (n, l, next) (r (failures ++ e ∷ []))
      ]
  after_client-passes clients failures rest (inr plan) result h l r = cc

  not_last :
      (before clients : List String) (client : String)
      → is_last (before ++ client ∷ clients) ≡ false
  not_last [] clients client = refl
  not_last (b ∷ before) clients client = refl

  -- The first client that gives a plan decides: it is the last one that is run, whatever failed before
  -- it with errors that another client may not meet, and no client after it is run.
  pub try_clients-first :
      (before clients : List String) (client : String) (plan : PlaybackPlan)
      (failures : List ResolveError)
      → all (λ c. passes (asked c)) before ≡ true
      → asked client ≡ inr plan
      → try_clients env muxed target cfg failures (before ++ client ∷ clients)
        ≡ (before ++ client ∷ [], inr plan)
  unfolding try_clients after_client
  try_clients-first [] clients client plan failures h found = rw found refl
  try_clients-first (b ∷ before) clients client plan failures h found =
      let (going, others) = both_true (passes (asked b)) _ h in
      ap (also_tried b) (
        after_client-passes (before ++ client ∷ clients) failures _ (asked b) _ going
          (not_last before clients client)
          (λ known. try_clients-first before clients client plan known others found))

equal_fold_refl : (table : CaseTable) (s : String) → equal_fold table s s ≡ true
unfolding equal_fold
equal_fold_refl table s = str_eq_refl _

folds_mweb :
    (table : CaseTable) (client : String)
    → "mweb" ≡ client
    → equal_fold table (trim_space client) "mweb" ≡ true
unfolding trim_space
folds_mweb table client q =
    ap (λ c. equal_fold table (trim_space c) "mweb") (sym q) ∙ equal_fold_refl table "mweb"

-- The automatic choice of a client
abbrev pub is_automatic : YtdlConfig → Bool
is_automatic cfg = is_empty cfg.player_client || str_eq cfg.player_client auto_player_client

-- `mweb` is the client that is set, and alone is run; or the choice is automatic, and it is run second.
abbrev pub IsMwebTurn : YtdlConfig → List String → Type 0
IsMwebTurn cfg tried =
    ((is_automatic cfg ≡ false) × (tried ≡ "mweb" ∷ []))
    ⊎ ((is_automatic cfg ≡ true) × (tried ≡ "android" ∷ "mweb" ∷ []))

other_client : ◌≢◌ {A = String} "mweb" "android"
other_client q = let differ : true ≡ false = ap (λ c. str_eq "mweb" c) q in cc

only_choice :
    (client : String) (tried rest : List String)
    → tried ++ rest ≡ client ∷ []
    → any (str_eq "mweb") tried ≡ true
    → ("mweb" ≡ client) × (tried ≡ client ∷ [])
only_choice client [] rest e h = cc
only_choice client (a ∷ []) rest e h =
    let same : a ≡ client = cc in (str_eq→eq "mweb" a (ground arith) ∙ same, ap (λ x. x ∷ []) same)
only_choice client (a ∷ b ∷ tried) rest e h = cc

second_choice :
    (tried rest : List String)
    → tried ++ rest ≡ "android" ∷ "mweb" ∷ []
    → any (str_eq "mweb") tried ≡ true
    → tried ≡ "android" ∷ "mweb" ∷ []
second_choice [] rest e h = cc
second_choice (a ∷ []) rest e h =
    let same : a ≡ "android" = cc in
    absurd (other_client (str_eq→eq "mweb" a (ground arith) ∙ same))
second_choice (a ∷ b ∷ []) rest e h = cc
second_choice (a ∷ b ∷ c ∷ tried) rest e h = cc

-- A list of clients that is run when the choice is as set, with a provider of tokens where one is needed.
clients_of-mweb :
    (env : Env) (cfg : YtdlConfig) (tried rest : List String)
    → equal_fold env.args.table (trim_space cfg.player_client) "mweb" && not (has_pot env cfg)
      ≡ false
    → tried ++ rest ≡ clients_of env cfg
    → any (str_eq "mweb") tried ≡ true
    → (has_pot env cfg ≡ true) × IsMwebTurn cfg tried
unfolding clients_of
clients_of-mweb env cfg tried rest test e h = elim (Bool-cases (is_automatic cfg)) [
  | inl automatic ↦ elim (Bool-cases (has_pot env cfg)) [
    | inl pot ↦ (pot, inr (automatic, second_choice tried rest (simp (automatic, pot) at e) h))
    | inr n ↦
        let (client, _) = only_choice "android" tried rest (simp (automatic, n) at e) h in
        absurd (other_client client)
  ]
  | inr fixed ↦
      let (client, alone) = only_choice cfg.player_client tried rest (simp fixed at e) h in
      let folds = folds_mweb env.args.table cfg.player_client client in
      (ground arith, inl (fixed, alone ∙ ap (λ c. c ∷ []) (sym client)))
]

module _ (env : Env) (muxed : Bool) (target : String) (cfg : YtdlConfig) where
  after_client-ends :
      (clients : List String) (failures : List ResolveError) (rest : List ResolveError → Tried)
      (x : ResolveError ⊎ PlaybackPlan)
      → ((after_client clients failures rest x).0 ≡ [])
        ⊎ ((known : List ResolveError) × (after_client clients failures rest x ≡ rest known))
  unfolding after_client
  after_client-ends clients failures rest (inr plan) = inl refl
  after_client-ends clients failures rest (inl e) = elim (Bool-cases e.stopped) [
    | inl y ↦ inl (rw y refl)
    | inr n ↦ elim (Bool-cases (is_last clients || not (can_try_next_client e))) [
      | inl l ↦ inl (rw (n, l) refl)
      | inr go_on ↦ inr (failures ++ e ∷ [], rw (n, go_on) refl)
    ]
  ]

  -- The clients that were run begin the list of clients.
  try_clients-begins :
      (clients : List String) (failures : List ResolveError)
      → (rest : List String) × ((try_clients env muxed target cfg failures clients).0 ++ rest
          ≡ clients)
  unfolding try_clients
  try_clients-begins [] failures = ([], refl)
  try_clients-begins (client ∷ clients) failures =
      elim (after_client-ends clients failures
        (λ known. try_clients env muxed target cfg known clients)
        (asked env muxed target cfg client)) [
          | inl ends ↦ (clients, rw ends refl)
          | inr (known, goes_on) ↦
              let (rest, e) = try_clients-begins clients known in
              (rest, rw goes_on (ap (λ l. client ∷ l) e))
        ]

resolve_remote-mweb :
    (env : Env) (muxed : Bool) (target : String) (cfg : YtdlConfig)
    → any (str_eq "mweb") (resolve_remote env muxed cfg target).0 ≡ true
    → (has_pot env cfg ≡ true) × IsMwebTurn cfg (resolve_remote env muxed cfg target).0
unfolding resolve_remote
resolve_remote-mweb env muxed target cfg h =
    elim (Bool-cases
      (equal_fold env.args.table (trim_space cfg.player_client) "mweb" && not (has_pot env cfg))) [
        | inl y ↦ absurd (ground arith)
        | inr n ↦
            let (rest, e) = try_clients-begins env muxed target cfg (clients_of env cfg) [] in
            rw n (clients_of-mweb env cfg _ rest n e (rw n at h))
      ]

-- `mweb` is run only where a provider of tokens is set up and can be had: alone, as the client that
-- is set, or, where the choice is automatic, second after `android`.
pub resolve-mweb :
    (env : Env) (muxed : Bool) (cfg : YtdlConfig) (context_done : Bool) (req : PlaybackRequest)
    → any (str_eq "mweb") (resolve env muxed cfg context_done req).0 ≡ true
    → (has_pot env cfg ≡ true) × IsMwebTurn cfg (resolve env muxed cfg context_done req).0
unfolding resolve
resolve-mweb env muxed cfg context_done req h =
    let target = target_of env req in
    elim (Bool-cases context_done) [
      | inl y ↦ absurd (ground arith)
      | inr n ↦ elim (Bool-cases (is_remote env target)) [
        | inr local ↦ absurd (ground arith)
        | inl remote ↦ elim (Option-cases env.binary) [
          | inl missing ↦ absurd (ground arith)
          | inr (path, found) ↦
              simp (n, remote, found)
                (resolve_remote-mweb env muxed target cfg (simp (n, remote, found) at h))
        ]
      ]
    ]
