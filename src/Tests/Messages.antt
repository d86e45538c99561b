-- ===== src/Tests/Messages.antt =====
-- Instructions, files and the publish-subscribe system on small inputs.
use xmidt_agent.Base.{
  ℕ, ◌+◌, ◌<◌, ◌≡◌, ◌≤◌, ◌⊎◌, ◌↔◌, refl, true, false, Option, some, none, List, [], ◌∷◌, length,
  Text, codes, arith, In, map,
}
use xmidt_agent.Wrp.{Message, Error, blank, sentinel, not_handled}
use xmidt_agent.Jwtxt.{Parsed, token, Instructions, lines, found, endpoint, reassemble}
use xmidt_agent.Jwtxt.Reassemble.{Line, line, reassemble_chunks}
use xmidt_agent.Jwtxt.Cache.{Refreshed, endpoint_cached}
use xmidt_agent.Fs.{ok, write_file_with_sha256, read_file_with_sha256}
use xmidt_agent.Fs.Mem.{MemFs, mem, write_file, has_perms, mode_perms, share_bits}
use xmidt_agent.Fs.Checksum.{checksum_round_trip}
use xmidt_agent.Pubsub.{
  Locator, PubSub, Wait, finish_all, is_ready, handled, done, validate_string, normalize,
}
use xmidt_agent.Pubsub
use xmidt_agent.Pubsub.Answers.{choices_by_answers}
use xmidt_agent.Pubsub.Routes.{service_subscribed}

abbrev two_lines : List Line
two_lines = (2, codes "cd") ∷ (1, codes "ab") ∷ []

reassemble_chunks_example : reassemble (map line two_lines) ≡ codes "abcd"
reassemble_chunks_example =
    reassemble_chunks (codes "ab" ∷ codes "cd" ∷ []) two_lines
      (omega arith, refl, (refl, tt), (omega arith, refl, tt, tt)) (refl, (refl, tt)) refl
      (omega arith) (refl, (refl, tt))

abbrev parse : ℕ → Text → Parsed
parse now t = token (record { expiration = now + 10; endpoint = some t; payload = [] })

abbrev kept : Instructions
kept = record { valid_until = 5; endpoint = codes "old"; payload = [] }

endpoint_cached_example :
    let answer = lines (codes "01:new" ∷ []) in
    let (result, ins', event) = endpoint parse 7 answer kept in
    (7 < 5) × (result ≡ found (codes "old")) × (ins' ≡ kept) × (event ≡ none)
    ⊎ (5 ≤ 7) × Refreshed parse 7 answer kept (result, ins', event)
endpoint_cached_example = endpoint_cached parse 7 (lines (codes "01:new" ∷ [])) kept

abbrev here : Text → Text
here _ = codes "."

abbrev same : Text → Text
same t = t

abbrev sum : Text → Text
sum _ = codes "5f"

abbrev empty : MemFs
empty = record { files = []; dirs = []; errs = [] }

abbrev stored : MemFs
stored = (write_file_with_sha256 (mem here) sum same (codes "cfg") (codes "x") 420 empty).1

checksum_round_trip_example :
    read_file_with_sha256 (mem here) sum same (codes "cfg") stored ≡ ok (codes "x")
unfolding write_file_with_sha256 write_file has_perms mode_perms share_bits
checksum_round_trip_example =
    checksum_round_trip here sum same (codes "cfg") (codes "x") 420 empty stored refl refl refl refl

choices_by_answers_example :
    let w =
      finish_all
        (some (sentinel not_handled) ∷ none ∷ [])
        (record { unfinished = 2; full = false }) in
    (is_ready w handled ≡ true ↔ 0 < 1)
    × (is_ready w done ≡ true ↔ (length (some (sentinel not_handled) ∷ none ∷ []) ≡ 2) × (1 ≤ 1))
choices_by_answers_example =
    choices_by_answers 2 (some (sentinel not_handled) ∷ none ∷ []) (omega arith)

-- An eventor as a list of handlers, which are numbers.
abbrev add : ℕ → List ℕ → ℕ × List ℕ
add h e = (h, h ∷ e)

abbrev passes : {A : Type 0} → A → Message → Option Error × Message
passes _ msg = (none, msg)

abbrev locator : Text → Locator
locator t = record {
  scheme = codes "mac";
  authority = t;
  service = codes "config";
  device = codes "mac:1";
}

abbrev agent : PubSub (List ℕ) ℕ
agent = record { self = codes "mac:1"; desired_opts = []; routes = []; publish_timeout = 9 }

abbrev shown : List ℕ → List ℕ
shown e = e

abbrev unchanged : ℕ → List ℕ → List ℕ
unchanged k e = e

abbrev published : PubSub (List ℕ) ℕ → Pubsub.Result (Message × List ℕ)
published ps = Pubsub.publish [] add unchanged shown passes passes locator ps blank

service_subscribed_example :
    let ps' = (Pubsub.subscribe_service [] add unchanged shown (codes "config") (some 4) agent).1 in
    (before after : List ℕ) × (published agent ≡ Pubsub.ok (blank, before))
    × (published ps' ≡ Pubsub.ok (blank, after))
    × ((g : ℕ)
        → In g after
          ↔ In g before
            ⊎ (g ≡ 4)
              × (codes "mac:1" ≡ codes "mac:1")
              × ((codes "config" ≡ codes "config") ⊎ (codes "config" ≡ codes "*")))
unfolding validate_string normalize
service_subscribed_example =
    service_subscribed [] add shown (λ h i. i) (λ g h e. ((λ i. i), (λ i. i))) unchanged passes
      passes locator (codes "config") 4 agent blank blank (locator []) refl refl
