-- ===== src/Runs/Signing.antt =====
-- server/auth.go on a password of two bytes.
use fragments.Base.{
  ℕ, true, ◌≡◌, ◌≢◌, ◌≤◌, ◌*◌, ◌-◌, ◌+◌, refl, arith, some, List, [], ◌∷◌, ◌++◌, codes,
  base64_encode, base64_decode, digits, parse_int, All, IsByte,
}
use fragments.Auth.Session.{second, issue, validate, csrf_for, require_auth, pass}
use fragments.Auth.Signed.{validate-csrf_for}
use fragments.Auth.Limiter.{attempt, put, sweep}
use fragments.Auth.Waits.{assured, last_of}
use fragments.Auth.Backoff.{Call, tried, signed_in, allowed, instants_of, allowed_bounds}
use fragments.Auth.Login.{handle_login, handle_login-admits, check_password}

-- A code that depends on the first bytes.
abbrev short_mac : List ℕ → List ℕ
short_mac [] = 0 ∷ []
short_mac (x ∷ xs) = x ∷ 7 ∷ []

-- A code that is the same for every text.
abbrev constant_mac : List ℕ → List ℕ
constant_mac text = 7 ∷ []

constant-bytes : (m : List ℕ) → All IsByte (constant_mac m)
constant-bytes m = (omega arith, tt)

validate-csrf_for_example :
    (payload : List ℕ) × (payload ≢ codes "csrf|" ++ 65 ∷ [])
    × (constant_mac payload ≡ constant_mac (codes "csrf|" ++ 65 ∷ []))
unfolding issue validate csrf_for base64_encode digits parse_int base64_decode
validate-csrf_for_example =
    validate-csrf_for constant_mac 0 (issue constant_mac second) (65 ∷ [])
      (base64_encode (codes "1")) constant-bytes refl refl

-- Seven attempts within two seconds, one of another address that signs in, and one after a minute.
abbrev login_calls : List Call
login_calls =
    tried 0 "ip"
    ∷ tried 0 "ip"
    ∷ tried 0 "other"
    ∷ tried 0 "ip"
    ∷ signed_in "other"
    ∷ tried 0 "ip"
    ∷ tried 0 "ip"
    ∷ tried second "ip"
    ∷ tried (2 * second) "ip"
    ∷ tried (62 * second) "ip"
    ∷ []

allowed_bounds_example :
    (assured 5 0 (instants_of "ip" login_calls) ≤ allowed login_calls "ip" [])
    × (2 * second * (allowed login_calls "ip" [] - 5)
        ≤ last_of 0 (instants_of "ip" login_calls) - 0)
allowed_bounds_example =
    allowed_bounds login_calls 0 "ip" [] (ground (arith)) (refl, tt) refl (omega arith)

abbrev secret_word : List ℕ
secret_word = codes "pw"

handle_login-admits_example :
    (some secret_word ≡ some secret_word)
    × (secret_word ≢ [])
    × ((attempt 1 "ip" []).1 ≡ true)
    × (require_auth short_mac second
          (some (issue short_mac (2 + 5 * second)))
          "POST"
          (csrf_for short_mac (issue short_mac (2 + 5 * second)))
        ≡ pass)
unfolding handle_login check_password attempt put sweep
handle_login-admits_example =
    handle_login-admits short_mac secret_word (5 * second) 1 2 "ip" (some secret_word) []
      (issue short_mac (2 + 5 * second), csrf_for short_mac (issue short_mac (2 + 5 * second)))
      second "POST" refl (omega arith)
