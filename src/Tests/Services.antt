-- ===== src/Tests/Services.antt =====
-- Credentials, metadata and network interfaces on small inputs.
use xmidt_agent.Base.{
  arith, inl, inr, ◌∙◌, map, length, to_lower_byte, eq_text→eq, ℕ, ◌-◌, ◌≤◌, ◌≡◌, ◌⊎◌, refl, sym,
  ap, true, false, Option, some, none, List, [], ◌∷◌, Text, codes, ltb, if◌then◌else◌,
}
use xmidt_agent.Base.Int.{ℤ, pos}
use xmidt_agent.Base.Dict.{Dict}
use xmidt_agent.Base.Dict
use xmidt_agent.Base.Run.{Yields}
use xmidt_agent.Wrp.{Error, sentinel, fetch_failed, blank}
use xmidt_agent.Net.{
  Interface, AllowedInterface, equal_fold, is_usable, comes_before, get_interfaces,
  get_interface_names,
}
use xmidt_agent.Net
use xmidt_agent.Net.Order.{NamedBy, IsInUse, IsUnambiguous, get_interfaces_correct}
use xmidt_agent.Metadata.{MetadataProvider, decorate_msg}
use xmidt_agent.Metadata.Fields.{facts, is_requested, or_else, decorate_msg_correct}
use xmidt_agent.Fs.{
  ok, failed, Result, with_path, with_dirs, dir_options, operate, with_dir, write_file_with_sha256,
}
use xmidt_agent.Fs.Mem.{MemFs, write_file, has_perms, mode_perms, share_bits, open_file, mkdir}
use xmidt_agent.Jwtxt.{split}
use xmidt_agent.Credentials.{Token, Response, Answer, answers, second, fetch, determine_expiration}
use xmidt_agent.Credentials.Stored.{Storage, store, load}
use xmidt_agent.Credentials.Stored.Trip.{in_memory, store-load}
use xmidt_agent.Credentials.Renewal.{Loop, Round, timed_out, marked_invalid, run, attempt}
use xmidt_agent.Credentials.Renewal.Outcomes.{view, see_all, events, run-Refines}
use xmidt_agent.Credentials.Renewal.Waits.{Answered, Unanswered, attempt_correct}

abbrev wifi : Interface
wifi = record { name = codes "wlan0"; running = true }

abbrev cable : Interface
cable = record { name = codes "erouter0"; running = true }

abbrev down : Interface
down = record { name = codes "eth9"; running = false }

abbrev allowances : Dict AllowedInterface
allowances =
    (codes "erouter0", record { priority = pos 1; enabled = true })
    ∷ (codes "wlan0", record { priority = pos 2; enabled = true })
    ∷ []

keys_alike :
    (name : Text) {a b : Text × AllowedInterface} {v w : AllowedInterface} {k j : Text}
    → (k, v) ≡ a
    → (j, w) ≡ b
    → equal_fold name k ≡ true
    → equal_fold name j ≡ true
    → length (map to_lower_byte a.0) ≡ length (map to_lower_byte b.0)
keys_alike name p q e f =
    ap (λ (x : Text × AllowedInterface). length (map to_lower_byte x.0)) (sym p)
    ∙ ap length (sym (eq_text→eq _ _ e) ∙ eq_text→eq _ _ f)
    ∙ ap (λ (x : Text × AllowedInterface). length (map to_lower_byte x.0)) q

allowances-IsUnambiguous : IsUnambiguous allowances
allowances-IsUnambiguous name v w (k, inl p, e) (j, inl q, f) =
    ap (λ (x : Text × AllowedInterface). x.1) (p ∙ sym q)
allowances-IsUnambiguous name v w (k, inl p, e) (j, inr (inl q), f) =
    absurd (omega (arith, keys_alike name p q e f))
allowances-IsUnambiguous name v w (k, inr (inl p), e) (j, inl q, f) =
    absurd (omega (arith, keys_alike name p q e f))
allowances-IsUnambiguous name v w (k, inr (inl p), e) (j, inr (inl q), f) =
    ap (λ (x : Text × AllowedInterface). x.1) (p ∙ sym q)
allowances-IsUnambiguous name v w (k, inl p, e) (j, inr (inr h), f) = absurd h
allowances-IsUnambiguous name v w (k, inr (inl p), e) (j, inr (inr h), f) = absurd h
allowances-IsUnambiguous name v w (k, inr (inr h), e) _ = absurd h

get_interfaces_correct_example :
    let interfaces : Net.Result (List Interface) = Net.ok (wifi ∷ down ∷ cable ∷ []) in
    ((e : Error) × (interfaces ≡ Net.failed e)
      × (get_interfaces allowances interfaces ≡ Net.failed e)
      × (get_interface_names allowances interfaces ≡ Net.failed e))
    ⊎ ((all : List Interface) × (sorted : List Interface) × (interfaces ≡ Net.ok all)
        × (get_interfaces allowances interfaces ≡ Net.ok sorted)
        × NamedBy (get_interface_names allowances interfaces) sorted
        × IsInUse allowances all sorted)
get_interfaces_correct_example =
    get_interfaces_correct allowances (Net.ok (wifi ∷ down ∷ cable ∷ [])) allowances-IsUnambiguous

abbrev fresh : Token
fresh = record { token = codes "jwt"; expires_at = 50 }

-- An encoding: a byte for the expiry, and the token.
abbrev encode : Token → Result Text
encode t = ok (t.expires_at ∷ t.token)

abbrev decode : Text → Result Token
decode [] = failed (sentinel fetch_failed)
decode (e ∷ t) = ok (record { token = t; expires_at = e })

abbrev idle : Loop ℕ
idle = record {
  held = some fresh;
  fetched = true;
  valid = true;
  from_disc = false;
  loaded = none;
  disc = 0;
}

abbrev issued : Answer
issued =
    answers (record { status_code = 200; retry_after = []; expires = []; body = ok (codes "new") })

abbrev busy : Response
busy = record { status_code = 429; retry_after = codes "7"; expires = []; body = ok [] }

abbrev seven : Text → Option ℤ
seven t = some (pos 7)

abbrev unparsed : Text → Option ℕ
unparsed t = none

abbrev rounds : List Round
rounds =
    record { answered = 30; stored = 31; answer = issued; wake = marked_invalid }
    ∷ record { answered = 32; stored = 33; answer = answers busy; wake = timed_out }
    ∷ []

run-Refines_example :
    view (run encode none (λ n. n) (fetch seven unparsed (pos 9)) rounds idle)
    ≡ see_all (events (fetch seven unparsed (pos 9)) none rounds) (view idle)
run-Refines_example = run-Refines encode none (λ n. n) (fetch seven unparsed (pos 9)) rounds idle

attempt_correct_example :
    let r = attempt encode none (λ n. n) (fetch seven unparsed (pos 9)) 30 31 issued idle in
    ((resp : Response) × (body : Text) × Answered resp issued body
      × (let expires = determine_expiration unparsed (pos 9) 30 resp in
          let t : Token = record { token = body; expires_at = expires } in
          r ≡ (
            (if ltb 31 expires then expires - 31 else second),
            record {
              held = some t;
              fetched = true;
              valid = true;
              from_disc = false;
              loaded = none;
              disc = (store encode none t 0).1;
            },
          )))
    ⊎ Unanswered issued
      × ((wait : ℕ) × (second ≤ wait) × (r ≡ (wait, record idle { fetched = true; loaded = none })))
attempt_correct_example =
    attempt_correct seven unparsed (pos 9) encode none (λ n. n) 30 31 issued idle refl

abbrev provider : MetadataProvider
provider = record {
  interface_names = some (Net.ok (codes "erouter0" ∷ []));
  fields = codes "fw-name" ∷ codes "interfaces-available" ∷ [];
  firmware = codes "v1";
  hardware = [];
  manufacturer = [];
  serial_number = [];
  last_reboot_reason = [];
  protocol = [];
  boot_time = [];
  boot_time_retry_delay = [];
  interface_used = [];
}

decorate_msg_correct_example :
    Yields
      (λ r.
        (record r { metadata = [] } ≡ blank)
        × ((k : Text)
            → Dict.lookup k r.metadata ≡ (
                if is_requested provider.fields k
                then or_else (Dict.lookup k (facts provider (Net.ok (codes "erouter0" ∷ [])))) none
                else none)))
      (decorate_msg provider blank)
decorate_msg_correct_example =
    decorate_msg_correct provider (Net.ok (codes "erouter0" ∷ [])) blank refl

inverse : (buf : Text) → encode fresh ≡ ok buf → decode buf ≡ ok fresh
inverse buf h = ap (λ r. elim r [ ok b ↦ decode b | failed e ↦ failed e ]) (sym h)

abbrev dot : Text → Text
dot t = codes "."

abbrev cache : Storage MemFs
cache = in_memory dot (λ t. codes "tok") (λ t. codes "1f") (λ d n. n) (λ t. false) (codes "tok") 493

abbrev nothing : MemFs
nothing = record { files = []; dirs = []; errs = [] }

abbrev saved : MemFs
saved = (store encode (some cache) fresh nothing).1

store-load_example : load decode (some cache) saved ≡ (ok (some fresh), saved)
unfolding store with_path with_dirs dir_options operate with_dir open_file mkdir has_perms
    mode_perms share_bits split write_file_with_sha256 write_file
store-load_example =
    store-load dot (λ t. codes "tok") (λ t. codes "1f") (λ d n. n) (λ t. false) (codes "tok") 493
      encode decode fresh nothing saved saved inverse (λ contents. refl) refl refl refl refl
