-- ===== src/Websocket/Url.antt =====
-- cmd/xmidt-agent/ws.go: the URL that the websocket dials, from the instructions or the backup.
-- Parameters: `join_path` for url.JoinPath, and those of the instructions.
use xmidt_agent.Base.{
  ℕ, ◌<◌, ◌≤◌, ◌≡◌, refl, ◌⊎◌, inl, inr, true, false, Option, some, none, Text, is_empty,
  Bool-cases, if◌then◌else◌,
}
use xmidt_agent.Wrp.{Error}
use xmidt_agent.Fs.{Result, ok, failed}
use xmidt_agent.Jwtxt.{Parsed, TxtAnswer, Instructions, Endpoint, found, panicked, endpoint}
use xmidt_agent.Jwtxt
use xmidt_agent.Jwtxt.Cache.{Missing, Says, endpoint_cached}

-- fetchURL; without JWTXT the function is nil.
unfoldable pub fetch_endpoint :
    (Text → Text → Result Text) → Text → Text → Option (Result Text) → Result Text
fetch_endpoint join_path path backup none = join_path backup path
fetch_endpoint join_path path backup (some (ok base)) = join_path base path
fetch_endpoint join_path path backup (some (failed e)) =
    if is_empty backup then failed e else join_path backup path

-- fetchURL on what Endpoint of the instructions does; `none` is its panic, which nothing recovers.
unfoldable pub url_for : (Text → Text → Result Text) → Text → Text → Endpoint → Option (Result Text)
url_for join_path path backup (found t) = some (fetch_endpoint join_path path backup (some (ok t)))
url_for join_path path backup (Jwtxt.failed e) =
    some (fetch_endpoint join_path path backup (some (failed e)))
url_for join_path path backup panicked = none

-- What the instructions find: the endpoint that is kept, while it is valid, and then that of a record
-- which is a valid JWT.
abbrev pub Found : (ℕ → Text → Parsed) → ℕ → TxtAnswer → Instructions → Text → Type 0
Found parse now answer ins base =
    (now < ins.valid_until) × (base ≡ ins.endpoint)
    ⊎ (ins.valid_until ≤ now)
      × ((t : Jwtxt.Token) × Says parse now answer t × (t.endpoint ≡ some base))

-- What the URL is without an endpoint: the backup, if there is one, or the error.
abbrev pub BacksUp : (Text → Text → Result Text) → Text → Text → Result Text → Type 0
BacksUp join_path path backup url =
    (is_empty backup ≡ false) × (url ≡ join_path backup path)
    ⊎ (is_empty backup ≡ true) × ((e : Error) × (url ≡ failed e))

module _ (join_path : Text → Text → Result Text) (path backup : Text) where
  failed-BacksUp :
      (e : Error)
      → BacksUp join_path path backup (fetch_endpoint join_path path backup (some (failed e)))
  unfolding fetch_endpoint
  failed-BacksUp e = elim (Bool-cases (is_empty backup)) [
    | inl p ↦ inr (p, (e, rw (fetch_endpoint, p) refl))
    | inr p ↦ inl (p, rw (fetch_endpoint, p) refl)
  ]

  -- The URL that is dialed, with instructions, is that of the endpoint that is kept, while it is valid,
  -- whatever the resolver answers. After that it is that of the endpoint in the record, if the record
  -- is a valid JWT whose endpoint is a text. Without a record that is a valid JWT, it is that of the
  -- backup, or an error if there is no backup. A valid JWT whose endpoint is not a text gives neither:
  -- the call panics, with a backup or without.
  pub fetch_endpoint_correct :
      (parse : ℕ → Text → Parsed) (now : ℕ) (answer : TxtAnswer) (ins : Instructions)
      → let url = url_for join_path path backup (endpoint parse now answer ins).0 in
        ((base : Text) × Found parse now answer ins base × (url ≡ some (join_path base path)))
        ⊎ (ins.valid_until ≤ now)
          × Missing parse now answer
          × ((r : Result Text) × (url ≡ some r) × BacksUp join_path path backup r)
        ⊎ (ins.valid_until ≤ now)
          × ((t : Jwtxt.Token) × Says parse now answer t × (t.endpoint ≡ none))
          × (url ≡ none)
  unfolding fetch_endpoint url_for
  fetch_endpoint_correct parse now answer ins = elim (endpoint_cached parse now answer ins) [
    | inl (early, p, _, _) ↦ inl (ins.endpoint, inl (early, refl), rw p refl)
    | inr (late, inl (missing, (e, p), _)) ↦
        inr (inl (late, missing, (_, rw p refl, failed-BacksUp e)))
    | inr (late, inr (inl (t, ep, says, text, p, _))) ↦
        inl (ep, inr (late, (t, says, text)), rw p refl)
    | inr (late, inr (inr (t, says, text, p, _, _))) ↦ inr (inr (late, (t, says, text), rw p refl))
  ]
