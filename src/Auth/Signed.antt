-- ===== src/Auth/Signed.antt =====
-- server/auth.go: which tokens are valid.
use fragments.Base.{
  ◌≢◌, sym, ℕ, ◌<◌, ◌^◌, ◌≡◌, refl, ap, ◌∙◌, true, false, Option, none, some, List, ◌∷◌, ◌++◌, ℤ,
  pos, ltb_ℤ, codes, bytes_eq, bytes_eq_refl, bytes_eq→≡, cut, cut-append, digits, digits-bytes,
  parse_int, parse_int-digits, base64_encode, base64_decode, base64_decode-base64_encode,
  base64_encode-dotless, IsByte, All, if◌then◌else◌, arith, ltb, Bool-cases, inl, inr,
}
use fragments.Auth.Session.{
  unix, sign, issue, is_live, is_signed, validate_parts, validate, csrf_for,
}

module _ (mac : List ℕ → List ℕ) where
  -- What a token says whose first part encodes bytes.
  validate-encoded :
      (now : ℕ) (payload sig : List ℕ)
      → All IsByte payload
      → validate mac now (base64_encode payload ++ b'.' ∷ sig)
        ≡ (if bytes_eq sig (sign mac payload) then is_live mac now (parse_int payload) else false)
  unfolding validate
  validate-encoded now payload sig h =
      ap (validate_parts mac now)
        (cut-append b'.' (base64_encode payload) sig (base64_encode-dotless payload h))
      ∙ ap (is_signed mac now sig) (base64_decode-base64_encode payload h)

  -- An issued token is valid exactly until it expires, if the expiry is an int64 of seconds.
  pub validate-issue :
      (now exp : ℕ)
      → unix exp < 2 ^ 63
      → validate mac now (issue mac exp) ≡ ltb (unix now) (unix exp)
  unfolding issue
  validate-issue now exp h =
      validate-encoded now (digits (unix exp)) (sign mac (digits (unix exp)))
        (digits-bytes (unix exp))
      ∙ rw (bytes_eq_refl (sign mac (digits (unix exp))), parse_int-digits (unix exp) h)
          (ground (arith))

  live-expiry :
      (now : ℕ) (o : Option ℤ)
      → is_live mac now o ≡ true
      → (exp : ℤ) × (o ≡ some exp) × (ltb_ℤ (pos (unix now)) exp ≡ true)
  live-expiry now none h = absurd (cc (h))
  live-expiry now (some exp) h = (exp, refl, h)

  signed-payload :
      (now : ℕ) (sig : List ℕ) (o : Option (List ℕ))
      → is_signed mac now sig o ≡ true
      → (payload : List ℕ) × (exp : ℤ) × (o ≡ some payload)
        × (sig ≡ sign mac payload)
        × (parse_int payload ≡ some exp)
        × (ltb_ℤ (pos (unix now)) exp ≡ true)
  signed-payload now sig none h = absurd (cc (h))
  signed-payload now sig (some payload) h = elim (Bool-cases (bytes_eq sig (sign mac payload))) [
    | inl e ↦
        let live = live-expiry now (parse_int payload) (rw e at h) in
        (payload, live.0, refl, bytes_eq→≡ sig (sign mac payload) e, live.1, live.2)
    | inr e ↦ absurd (cc (rw e at h))
  ]

  parts-IsSigned :
      (now : ℕ) (o : Option (List ℕ × List ℕ))
      → validate_parts mac now o ≡ true
      → (text : List ℕ) × (payload : List ℕ) × (exp : ℤ) × (o ≡ some (text, sign mac payload))
        × (base64_decode text ≡ some payload)
        × (parse_int payload ≡ some exp)
        × (ltb_ℤ (pos (unix now)) exp ≡ true)
  parts-IsSigned now none h = absurd (cc (h))
  parts-IsSigned now (some (text, sig)) h =
      let p = signed-payload now sig (base64_decode text) h in
      (text, p.0, p.1, ap (λ x. some (text, x)) p.3, p.2, p.4, p.5)

  -- A valid token is a text, a dot and the signature of what the text decodes to, which reads as an
  -- expiry that is still to come.
  pub validate-IsSigned :
      (now : ℕ) (token : List ℕ)
      → validate mac now token ≡ true
      → (text : List ℕ) × (payload : List ℕ) × (exp : ℤ) × (cut b'.' token
          ≡ some (text, sign mac payload))
        × (base64_decode text ≡ some payload)
        × (parse_int payload ≡ some exp)
        × (ltb_ℤ (pos (unix now)) exp ≡ true)
  unfolding validate
  validate-IsSigned now token h = parts-IsSigned now (cut b'.' token) h

  csrf-unread : (session : List ℕ) → parse_int (codes "csrf|" ++ session) ≡ none
  unfolding parse_int
  csrf-unread session = ground arith

  base64-injective :
      (xs ys : List ℕ)
      → All IsByte xs
      → All IsByte ys
      → base64_encode xs ≡ base64_encode ys
      → xs ≡ ys
  base64-injective xs ys h k e =
      let same : some xs ≡ some ys =
        sym (base64_decode-base64_encode xs h)
        ∙ ap base64_decode e
        ∙ base64_decode-base64_encode ys k in
      cc (same)

  -- When the MAC is a list of bytes: a session token that is valid and whose signature is the CSRF
  -- token of some session is a collision of the MAC, of another text with the one that csrfFor signs.
  pub validate-csrf_for :
      (now : ℕ) (token session text : List ℕ)
      → ((m : List ℕ) → All IsByte (mac m))
      → validate mac now token ≡ true
      → cut b'.' token ≡ some (text, csrf_for mac session)
      → (payload : List ℕ) × (payload ≢ codes "csrf|" ++ session)
        × (mac payload ≡ mac (codes "csrf|" ++ session))
  unfolding csrf_for sign
  validate-csrf_for now token session text bytes h k =
      let s = validate-IsSigned now token h in
      let payload = s.1 in
      let same : base64_encode (mac payload) ≡ base64_encode (mac (codes "csrf|" ++ session)) =
        cc (s.3, k) in
      (
        payload,
        (λ e. absurd (cc (s.5, e, csrf-unread session))),
        base64-injective (mac payload) (mac (codes "csrf|" ++ session)) (bytes payload)
            (bytes (codes "csrf|" ++ session)) same,
      )
