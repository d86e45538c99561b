-- ===== src/Credentials.antt =====
-- internal/credentials/credentials.go: the token that the agent shows to the cloud, how it decorates
-- requests, and how it is fetched, stored and loaded.
-- An instant or duration is a number of nanoseconds. The answers of the HTTP client, of uuid and of
-- http.NewRequest are one `Answer`. Parameters: `atoi` and `parse_time` for strconv.Atoi and
-- http.ParseTime.
pub mod Headers
pub mod Stored
pub mod Renewal
pub mod Settings
use xmidt_agent.Base.{
  ℕ, zero, suc, ◌+◌, ◌-◌, ◌*◌, ◌%◌, Bool, true, false, ◌&&◌, not, Option, some, none, List, [], ◌∷◌,
  ◌++◌, Text, codes, is_empty, ltb, ◌==◌, if◌then◌else◌,
}
use xmidt_agent.Base.Int.{ℤ, pos, negsuc, ltb_ℤ}
use xmidt_agent.Base.Dict.{Dict}
use xmidt_agent.Base.Dict
use xmidt_agent.Wrp.{
  Error, sentinel, join, no_token, token_expired, nil_request, fetch_failed, fetch_not_attempted,
}
use xmidt_agent.Fs.{
  Result, ok, failed, FileSystem, operate, with_path, write_file_with_sha256, read_file_with_sha256,
}

-- xmidtInfo
pub record Token : Type 0 where
  pub token : Text
  pub expires_at : ℕ

-- Credentials(): the token and its expiry, or an error
unfoldable pub credentials : Option Token → Result (Text × ℕ)
credentials none = failed (sentinel no_token)
credentials (some t) =
    if is_empty t.token then failed (sentinel no_token) else ok (t.token, t.expires_at)

-- The event of a decoration: its error, and the expiry of the token.
abbrev pub DecorateEvent : Type 0
DecorateEvent = Option Error × ℕ

-- decorate, at the instant `now`; nil headers are `none`. What dispatch returns is the event's error.
unfoldable pub decorate_headers :
    ℕ → Option Token → Option (Dict Text) → DecorateEvent × Option (Dict Text)
decorate_headers now held none = ((some (sentinel nil_request), 0), none)
decorate_headers now held (some headers) = elim (credentials held) [
  | failed e ↦ ((some e, 0), some headers)
  | ok (token, expires) ↦
      if ltb expires now then ((some (sentinel token_expired), expires), some headers) else (
        (none, expires),
        some (Dict.insert (codes "Authorization") (codes "Bearer " ++ token) headers),
      )
]

-- Decorate
unfoldable pub decorate :
    Bool → ℕ → Option Token → Option (Dict Text) → Option Error × Option (Dict Text)
decorate required now held headers =
    let (event, headers') = decorate_headers now held headers in
    (if required then event.0 else none, headers')

abbrev pub second : ℕ
second = 1000000000

-- time.Hour * 24 * 365 * 100
abbrev pub hundred_years : ℕ
hundred_years = 3600 * second * 24 * 365 * 100

-- The 64 bits of an int64, and the number that they stand for.
abbrev pub to_word : ℤ → ℕ
to_word (pos n) = n % 18446744073709551616
to_word (negsuc n) = 18446744073709551615 - n % 18446744073709551616

abbrev pub of_word : ℕ → ℤ
of_word w = if ltb w 9223372036854775808 then pos w else negsuc (18446744073709551615 - w)

-- `time.Duration(after) * time.Second`
unfoldable pub seconds_of : ℤ → ℤ
seconds_of after = of_word ((to_word after * second) % 18446744073709551616)

-- A response of the server.
pub record Response : Type 0 where
  pub status_code : ℕ
  pub retry_after : Text
  pub expires : Text
  -- what io.ReadAll makes of the body
  pub body : Result Text

pub data Answer : Type 0 where
  unrequested : Error → Answer
  unnamed : Error → Answer
  unanswered : Error → Answer
  answers : Response → Answer

pub record Fetched : Type 0 where
  pub token : Option Token
  pub retry_in : ℤ
  pub error : Option Error

-- What the device tells the server of itself, at the time of the request.
pub record Device : Type 0 where
  pub boot_retry_wait : Text
  pub mac_address : Text
  pub serial_number : Text
  pub partner_id : Text
  pub hardware_model : Text
  pub hardware_manufacturer : Text
  pub firmware_version : Text
  pub xmidt_protocol : Text
  pub last_reboot_reason : Text
  pub last_reconnect_reason : Text

-- req.Header.Set, one pair after the other
abbrev pub set_all : List (Text × Text) → Dict Text → Dict Text
set_all [] headers = headers
set_all ((k, v) ∷ pairs) headers = set_all pairs (Dict.insert k v headers)

-- the headers of the request
unfoldable pub request_headers : Device → Text → Dict Text
request_headers d uuid =
    set_all
      ((codes "X-Midt-Boot-Retry-Wait", d.boot_retry_wait)
        ∷ (codes "X-Midt-Mac-Address", d.mac_address)
        ∷ (codes "X-Midt-Serial-Number", d.serial_number)
        ∷ (codes "X-Midt-Uuid", uuid)
        ∷ (codes "X-Midt-Partner-Id", d.partner_id)
        ∷ (codes "X-Midt-Hardware-Model", d.hardware_model)
        ∷ (codes "X-Midt-Hardware-Manufacturer", d.hardware_manufacturer)
        ∷ (codes "X-Midt-Firmware-Name", d.firmware_version)
        ∷ (codes "X-Midt-Protocol", d.xmidt_protocol)
        ∷ (codes "X-Midt-Last-Reboot-Reason", d.last_reboot_reason)
        ∷ (codes "X-Midt-Last-Reconnect-Reason", d.last_reconnect_reason)
        ∷ [])
      []

abbrev pub failure : Error → ℤ → Fetched
failure e retry_in = record { token = none; retry_in = retry_in; error = some e }

-- determineExpiration
unfoldable pub determine_expiration : (Text → Option ℕ) → ℤ → ℕ → Response → ℕ
determine_expiration parse_time assumed_lifetime now resp =
    let assumed : ℕ = elim assumed_lifetime [
      | pos zero ↦ now + hundred_years
      | pos (suc n) ↦ now + suc n
      | negsuc n ↦ now + hundred_years
    ] in
    elim (parse_time resp.expires) [ none ↦ assumed | some t ↦ t ]

module _ (atoi : Text → Option ℤ) (parse_time : Text → Option ℕ) (assumed_lifetime : ℤ) where
  -- fetch, with the instant at which the answer has come
  unfoldable pub fetch : ℕ → Answer → Fetched
  fetch now (unrequested e) = failure (Error.joined e (sentinel fetch_not_attempted)) (pos 0)
  fetch now (unnamed e) = failure (Error.joined e (sentinel fetch_not_attempted)) (pos 0)
  fetch now (unanswered e) = failure (Error.joined e (sentinel fetch_failed)) (pos 0)
  fetch now (answers resp) =
      let retry : ℤ =
        if resp.status_code == 429
        then (elim (atoi resp.retry_after) [ none ↦ pos 0 | some after ↦ seconds_of after ])
        else pos 0 in
      let read : Fetched = elim resp.body [
        | failed e ↦ failure (Error.joined e (sentinel fetch_failed)) (pos 0)
        | ok body ↦ record {
          token = some (record {
            token = body;
            expires_at = determine_expiration parse_time assumed_lifetime now resp;
          });
          retry_in = pos 0;
          error = none;
        }
      ] in
      if resp.status_code == 200 then read else failure (sentinel fetch_failed) retry
