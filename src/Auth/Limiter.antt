-- ===== src/Auth/Limiter.antt =====
-- server/auth.go: loginLimiter, the backoff on attempts to sign in, for each address.
use fragments.Base.{
  ℕ, suc, ◌+◌, ◌-◌, ◌*◌, String, Bool, true, false, not, List, [], ◌∷◌, min, str_eq, ltb, leb,
  length, keep, if◌then◌else◌,
}
use fragments.Auth.Session.{second}

-- `until` is 0 before there is a cooldown.
pub record Attempt : Type 0 where
  pub fails : ℕ
  pub until : ℕ

-- The map, with one entry for an address at most.
pub record Entry : Type 0 where
  pub ip : String
  pub tries : Attempt

abbrev pub max_limiter_entries : ℕ
max_limiter_entries = 10000

abbrev pub fresh : Attempt
fresh = record { fails = 0; until = 0 }

abbrev pub minute : ℕ
minute = 60 * second

-- The attempts of an address; a missing entry is made.
abbrev pub tries_of : String → List Entry → Attempt
tries_of ip [] = fresh
tries_of ip (e ∷ es) = if str_eq ip e.ip then e.tries else tries_of ip es

unfoldable pub put : String → Attempt → List Entry → List Entry
put ip a [] = record { ip = ip; tries = a } ∷ []
put ip a (e ∷ es) = if str_eq ip e.ip then record { ip = ip; tries = a } ∷ es else e ∷ put ip a es

-- Entries behind their cooldown are forgotten when the map is large.
unfoldable pub sweep : ℕ → List Entry → List Entry
sweep now es =
    if ltb max_limiter_entries (length es) then keep (λ e. not (ltb e.tries.until now)) es else es

-- The cooldown behind the n-th attempt.
abbrev pub cooldown : ℕ → ℕ
cooldown n = min ((n - 4) * 2 * second) minute

abbrev pub counted : ℕ → Attempt → Attempt
counted now a =
    let n = suc a.fails in
    record { fails = n; until = if leb 5 n then now + cooldown n else a.until }

-- Whether the address may try, which counts as an attempt.
unfoldable pub attempt : ℕ → String → List Entry → List Entry × Bool
unfolding put sweep
attempt now ip es =
    let kept = sweep now es in
    let a = tries_of ip kept in
    if ltb now a.until then (put ip a kept, false) else (put ip (counted now a) kept, true)

unfoldable pub reset : String → List Entry → List Entry
reset ip es = keep (λ e. not (str_eq ip e.ip)) es
