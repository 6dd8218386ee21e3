-- ===== src/Auth/Waits.antt =====
-- server/auth.go: the attempts of one address, by the instants at which it makes them.
use fragments.Base.{
  ◌||◌, ◌⊎◌, leb, ℕ, zero, suc, ◌+◌, ◌-◌, ◌*◌, ◌≤◌, ◌≡◌, false, List, [], ◌∷◌, ltb, ◌==◌,
  if◌then◌else◌, arith, Bool-cases, inl, inr,
}
use fragments.Auth.Session.{second}
use fragments.Auth.Limiter.{Attempt, minute, cooldown, counted}

-- How many are let through, from what is counted so far.
unfoldable pub tries : List ℕ → Attempt → ℕ
tries [] a = 0
tries (t ∷ ts) a = if ltb t a.until then tries ts a else suc (tries ts (counted t a))

-- Instants in order from s on.
abbrev pub Ascending : ℕ → List ℕ → Type 0
Ascending s [] = Unit
Ascending s (t ∷ ts) = (s ≤ t) × Ascending t ts

abbrev pub last_of : ℕ → List ℕ → ℕ
last_of s [] = s
last_of s (t ∷ ts) = last_of t ts

last-le : (s : ℕ) (ts : List ℕ) → Ascending s ts → s ≤ last_of s ts
last-le s [] h = omega arith
last-le s (t ∷ ts) h = omega (arith, last-le t ts h.1)

cooldown-le : (n : ℕ) → 5 ≤ n → 2 * second ≤ cooldown n
cooldown-le n h = omega arith

counted-until : (t : ℕ) (a : Attempt) → 4 ≤ a.fails → t + 2 * second ≤ (counted t a).until
counted-until t a h = ground (arith, cooldown-le (suc a.fails))

one-more :
    (from until t last n : ℕ)
    → from ≤ t
    → t + 2 * second ≤ until
    → t ≤ last
    → (1 ≤ n → until + 2 * second * (n - 1) ≤ last)
    → from + 2 * second * (suc n - 1) ≤ last
one-more from until t last zero h k l ih = omega arith
one-more from until t last (suc n) h k l ih = let rest = ih (omega arith) in omega (arith, rest)

-- Behind the fourth attempt each further one waits two seconds at least.
tries-wait :
    (ts : List ℕ) (s : ℕ) (a : Attempt)
    → 4 ≤ a.fails
    → Ascending s ts
    → 1 ≤ tries ts a
    → a.until + 2 * second * (tries ts a - 1) ≤ last_of s ts
unfolding tries
tries-wait [] s a f o l = absurd (omega arith)
tries-wait (t ∷ ts) s a f o l = elim (Bool-cases (ltb t a.until)) [
  | inl e ↦ rw e (tries-wait ts t a f o.1 (rw e at l))
  | inr e ↦ rw e (
      let c = counted t a in
      one-more a.until c.until t (last_of t ts) (tries ts c) (ground (arith)) (counted-until t a f)
        (last-le t ts o.1) (λ m. tries-wait ts t c (omega arith) o.1 m))
]

early :
    (s t last f n : ℕ)
    → s ≤ t
    → t ≤ last
    → 2 * second * (n + suc f - 5) ≤ last - t
    → 2 * second * (suc n + f - 5) ≤ last - s
early s t last f n h l k = omega arith

fifth :
    (s t last until f n : ℕ)
    → f ≡ 4
    → s ≤ t
    → t ≤ last
    → t + 2 * second ≤ until
    → (1 ≤ n → until + 2 * second * (n - 1) ≤ last)
    → 2 * second * (suc n + f - 5) ≤ last - s
fifth s t last until f zero e h l k ih = omega arith
fifth s t last until f (suc n) e h l k ih = let rest = ih (omega arith) in omega (arith, rest)

pub tries-le :
    (ts : List ℕ) (s : ℕ) (a : Attempt)
    → a.fails ≤ 4
    → a.until ≤ s
    → Ascending s ts
    → 2 * second * (tries ts a + a.fails - 5) ≤ last_of s ts - s
unfolding tries
tries-le [] s a f b o = omega arith
tries-le (t ∷ ts) s a f b o =
    let open_now : ltb t a.until ≡ false = ground (arith) in
    let c = counted t a in
    rw open_now (elim (Bool-cases (a.fails == 4)) [
      | inl e ↦
          let four : a.fails ≡ 4 = ground (arith) in
          fifth s t (last_of t ts) c.until a.fails (tries ts c) four o.0 (last-le t ts o.1)
            (counted-until t a (omega arith)) (λ m. tries-wait ts t c (omega arith) o.1 m)
      | inr e ↦
          early s t (last_of t ts) a.fails (tries ts c) o.0 (last-le t ts o.1)
            (tries-le ts t c (ground (arith)) (ground (arith)) o.1)
    ])

-- The attempts that are let through whatever came before them: the first k, and those at least a
-- minute behind the one before.
abbrev pub assured : ℕ → ℕ → List ℕ → ℕ
assured k before [] = 0
assured k before (t ∷ ts) =
    (if ltb 0 k || leb (before + minute) t then 1 else 0) + assured (k - 1) t ts

pub tries-assured :
    (ts : List ℕ) (k s : ℕ) (a : Attempt)
    → (k + a.fails ≤ 5) ⊎ (k ≡ 0)
    → (a.until ≤ s) ⊎ (5 ≤ a.fails)
    → a.until ≤ s + minute
    → Ascending s ts
    → assured k s ts ≤ tries ts a
unfolding tries
tries-assured [] k s a h l m o = omega arith
tries-assured (t ∷ ts) k s a h l m o = elim (Bool-cases (ltb t a.until)) [
  | inl e ↦
      let many : 5 ≤ a.fails = ground (arith) in
      let used : k ≡ 0 = ground (arith) in
      let soon : leb (s + minute) t ≡ false = ground (arith) in
      let rest =
        tries-assured ts (k - 1) t a (inr (omega arith)) (inr many) (omega (arith, m, o.0)) o.1 in
      rw (e, used, soon) (ground (arith, rest))
  | inr e ↦
      let rest =
        tries-assured ts (k - 1) t (counted t a) (ground (arith)) (ground (arith)) (ground (arith))
          o.1 in
      rw e (ground (arith, rest))
]
