-- ===== src/Auth/Login.antt =====
-- server/auth.go: handleLogin, and what the session that it grants opens.
use fragments.Base.{
  ℕ, ◌+◌, ◌<◌, ◌^◌, ◌≡◌, ◌≢◌, ap, ◌∙◌, String, Bool, true, false, Option, none, some, List, [], ◌∷◌,
  bytes_eq, bytes_eq_refl, bytes_eq→≡, ltb, if◌then◌else◌, arith, Bool-cases, inl, inr,
}
use fragments.Auth.Session.{unix, issue, validate, csrf_for, require_auth, pass, unauthorized}
use fragments.Auth.Limiter.{Entry, attempt, reset}
use fragments.Auth.Signed.{validate-issue}

-- The status, and the session cookie and the CSRF token of a granted sign-in.
pub record Reply : Type 0 where
  pub status : ℕ
  pub granted : Option (List ℕ × List ℕ)

abbrev refusal : ℕ → Reply
refusal n = record { status = n; granted = none }

module _ (mac : List ℕ → List ℕ) where
  -- len(password) > 0 and the constant-time comparison
  abbrev pub is_password : List ℕ → List ℕ → Bool
  is_password [] given = false
  is_password (c ∷ cs) given = bytes_eq given (c ∷ cs)

  unfoldable pub check_password :
      List ℕ → ℕ → ℕ → String → Option (List ℕ) → List Entry → List Entry × Reply
  check_password password ttl issued ip none es = (es, refusal 400)
  check_password password ttl issued ip (some given) es =
      if is_password password given
      then (let token = issue mac (issued + ttl) in
          (reset ip es, record { status = 200; granted = some (token, csrf_for mac token) }))
      else (es, refusal 401)

  -- `body` is the password of the request's body, if that can be read; `now` is the instant of the
  -- attempt, `issued` that of the token.
  unfoldable pub handle_login :
      List ℕ → ℕ → ℕ → ℕ → String → Option (List ℕ) → List Entry → List Entry × Reply
  unfolding check_password
  handle_login password ttl now issued ip body es =
      let r = attempt now ip es in
      if r.1 then check_password password ttl issued ip body r.0 else (r.0, refusal 429)

  -- What a sign-in was granted for.
  abbrev pub Grant : List ℕ → ℕ → ℕ → Option (List ℕ) → List ℕ × List ℕ → Type 0
  Grant password ttl now body g =
      (body ≡ some password)
      × (password ≢ [])
      × (g.0 ≡ issue mac (now + ttl))
      × (g.1 ≡ csrf_for mac g.0)

  check_password-Grant :
      (password : List ℕ) (ttl now : ℕ) (ip : String) (body : Option (List ℕ)) (es : List Entry)
      (g : List ℕ × List ℕ)
      → (check_password password ttl now ip body es).1.granted ≡ some g
      → Grant password ttl now body g
  unfolding check_password
  check_password-Grant password ttl now ip none es g h = absurd (cc (h))
  check_password-Grant [] ttl now ip (some given) es g h = absurd (cc (h))
  check_password-Grant (c ∷ cs) ttl now ip (some given) es g h =
      elim (Bool-cases (bytes_eq given (c ∷ cs))) [
        | inl e ↦
            let same = bytes_eq→≡ given (c ∷ cs) e in
            let answer = rw e at h in
            (ap some same, (λ z. absurd (cc (z))), cc (answer), cc (answer))
        | inr e ↦ absurd (cc (rw e at h))
      ]

  handle_login-Grant :
      (password : List ℕ) (ttl now issued : ℕ) (ip : String) (body : Option (List ℕ))
      (es : List Entry) (g : List ℕ × List ℕ)
      → (handle_login password ttl now issued ip body es).1.granted ≡ some g
      → Grant password ttl issued body g × ((attempt now ip es).1 ≡ true)
  unfolding handle_login
  handle_login-Grant password ttl now issued ip body es g h =
      elim (Bool-cases (attempt now ip es).1) [
        | inl e ↦ (
          check_password-Grant password ttl issued ip body (attempt now ip es).0 g (rw e at h),
          e,
        )
        | inr e ↦ absurd (cc (rw e at h))
      ]

  -- A sign-in is granted only for the configured password, which is not empty, when the limiter lets
  -- the address try; and what it grants passes requireAuth, with every method, at exactly the instants
  -- before the session's end, if that end is an int64 of seconds.
  pub handle_login-admits :
      (password : List ℕ) (ttl now issued : ℕ) (ip : String) (body : Option (List ℕ))
      (es : List Entry) (g : List ℕ × List ℕ) (at_time : ℕ) (method : String)
      → (handle_login password ttl now issued ip body es).1.granted ≡ some g
      → unix (issued + ttl) < 2 ^ 63
      → (body ≡ some password)
        × (password ≢ [])
        × ((attempt now ip es).1 ≡ true)
        × (require_auth mac at_time (some g.0) method g.1
            ≡ (if ltb (unix at_time) (unix (issued + ttl)) then pass else unauthorized))
  unfolding require_auth
  handle_login-admits password ttl now issued ip body es g at_time method h k =
      let gr = handle_login-Grant password ttl now issued ip body es g h in
      let valid = ap (validate mac at_time) gr.0.2 ∙ validate-issue mac at_time (issued + ttl) k in
      let same : bytes_eq g.1 (csrf_for mac g.0) ≡ true =
        rw (gr.0.3) (bytes_eq_refl (csrf_for mac g.0)) in
      (gr.0.0, gr.0.1, gr.1, rw (valid, same) (ground (arith)))
