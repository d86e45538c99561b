-- ===== src/Credentials/Headers.antt =====
-- Decorate: when the request gets the token, and what is returned where it does not.
use xmidt_agent.Base.{
  ℕ, ◌<◌, ◌≤◌, ◌≡◌, refl, ap, ◌⊎◌, inl, inr, Bool, true, false, Option, some, none, ◌++◌, Text,
  codes, is_empty, ltb, arith, Bool-cases, if◌then◌else◌,
}
use xmidt_agent.Base.Dict.{Dict}
use xmidt_agent.Base.Dict
use xmidt_agent.Wrp.{Error, sentinel, no_token, token_expired, nil_request}
use xmidt_agent.Credentials.{Token, credentials, decorate_headers, decorate}

-- An error is returned only if the credentials are required.
abbrev pub Refused : Bool → Error → Option Error × Option (Dict Text) → Option (Dict Text) → Type 0
Refused required e r headers = (r.0 ≡ (if required then some e else none)) × (r.1 ≡ headers)

if_same : {A : Type 0} (b : Bool) (x : A) → (if b then x else x) ≡ x
if_same true x = refl
if_same false x = refl

-- Decorate sets the header Authorization to Bearer and the token, and returns nil, if there are
-- headers and a token that is not empty and has not expired. Otherwise the headers are left as they
-- are, and, if the credentials are required, the error says which of these is the first that fails.
pub decorate_correct :
    (required : Bool) (now : ℕ) (held : Option Token) (headers : Option (Dict Text))
    → let r = decorate required now held headers in
      (headers ≡ none) × Refused required (sentinel nil_request) r headers
      ⊎ ((h : Dict Text) × (headers ≡ some h)
          × ((held ≡ none) × Refused required (sentinel no_token) r headers
              ⊎ ((t : Token) × (held ≡ some t)
                  × ((is_empty t.token ≡ true) × Refused required (sentinel no_token) r headers
                      ⊎ (is_empty t.token ≡ false)
                        × ((t.expires_at < now)
                              × Refused required (sentinel token_expired) r headers
                            ⊎ (now ≤ t.expires_at)
                              × (r ≡ (
                                none,
                                some (
                                    Dict.insert
                                      (codes "Authorization")
                                      (codes "Bearer " ++ t.token)
                                      h),
                              )))))))
unfolding decorate decorate_headers credentials
decorate_correct required now held none = inl (refl, (refl, refl))
decorate_correct required now none (some h) = inr (h, refl, inl (refl, (refl, refl)))
decorate_correct required now (some t) (some h) = elim (Bool-cases (is_empty t.token)) [
  | inl e ↦ inr (
    h,
    refl,
    inr (t, refl, inl (e, rw (decorate, decorate_headers, credentials, e) (refl, refl))),
  )
  | inr e ↦ elim (Bool-cases (ltb t.expires_at now)) [
    | inl l ↦ inr (
      h,
      refl,
      inr (
        t,
        refl,
        inr (
          e,
          inl (grind (arith, l), rw (decorate, decorate_headers, credentials, e, l) (refl, refl)),
        ),
      ),
    )
    | inr l ↦ inr (
      h,
      refl,
      inr (
        t,
        refl,
        inr (
          e,
          inr (
            grind (arith, l),
            rw (decorate, decorate_headers, credentials, e, l)
                (ap
                  (λ x.
                    (x, some (Dict.insert (codes "Authorization") (codes "Bearer " ++ t.token) h)))
                  (if_same required none)),
          ),
        ),
      ),
    )
  ]
]
