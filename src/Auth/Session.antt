-- ===== src/Auth/Session.antt =====
-- server/auth.go: the session token, validate and requireAuth, on bytes. `mac` is HMAC-SHA256 under
-- the server's secret.
use fragments.Base.{
  ℕ, ◌/◌, String, Bool, false, ◌||◌, Option, none, some, List, ◌∷◌, ◌++◌, ℤ, pos, ltb_ℤ, codes,
  bytes_eq, cut, digits, parse_int, base64_encode, base64_decode, if◌then◌else◌, str_eq,
}

-- Instants and durations in nanoseconds, instants since 1970.
abbrev pub second : ℕ
second = 1000000000

abbrev pub unix : ℕ → ℕ
unix t = t / second

module _ (mac : List ℕ → List ℕ) where
  unfoldable pub sign : List ℕ → List ℕ
  sign payload = base64_encode (mac payload)

  -- A token that is valid until `exp`.
  unfoldable pub issue : ℕ → List ℕ
  unfolding sign
  issue exp = let payload = digits (unix exp) in base64_encode payload ++ b'.' ∷ sign payload

  abbrev pub is_live : ℕ → Option ℤ → Bool
  is_live now none = false
  is_live now (some exp) = ltb_ℤ (pos (unix now)) exp

  abbrev pub is_signed : ℕ → List ℕ → Option (List ℕ) → Bool
  is_signed now sig none = false
  is_signed now sig (some payload) =
      if bytes_eq sig (sign payload) then is_live now (parse_int payload) else false

  abbrev pub validate_parts : ℕ → Option (List ℕ × List ℕ) → Bool
  validate_parts now none = false
  validate_parts now (some (text, sig)) = is_signed now sig (base64_decode text)

  unfoldable pub validate : ℕ → List ℕ → Bool
  unfolding sign
  validate now token = validate_parts now (cut b'.' token)

  unfoldable pub csrf_for : List ℕ → List ℕ
  csrf_for token = base64_encode (mac (codes "csrf|" ++ token))

  pub data Verdict : Type 0 where
    pass unauthorized forbidden : Verdict

  abbrev pub is_safe_method : String → Bool
  is_safe_method m = str_eq m "GET" || str_eq m "HEAD" || str_eq m "OPTIONS"

  -- `cookie` is the request's session cookie, `got` its X-CSRF-Token header, "" if it has none.
  unfoldable pub require_auth : ℕ → Option (List ℕ) → String → List ℕ → Verdict
  unfolding validate csrf_for
  require_auth now none method got = unauthorized
  require_auth now (some token) method got =
      if validate now token
      then (if is_safe_method method
          then pass
          else (if bytes_eq got (csrf_for token) then pass else forbidden))
      else unauthorized
