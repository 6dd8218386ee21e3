-- ===== src/Auth/Backoff.antt =====
-- server/auth.go: how many attempts to sign in the limiter lets an address make.
use fragments.Base.{
  not, ◌&&◌, str_eq_iff, subst, length-keep, ℕ, suc, ◌+◌, ◌-◌, ◌*◌, ◌≤◌, ◌≡◌, refl, ap, ◌∙◌, String,
  Bool, true, false, List, [], ◌∷◌, str_eq, str_eq_refl, ltb, length, if◌then◌else◌, arith,
  Bool-cases, inl, inr,
}
use fragments.Auth.Session.{second}
use fragments.Auth.Limiter.{
  Attempt, Entry, max_limiter_entries, fresh, tries_of, put, sweep, counted, attempt, reset,
}
use fragments.Auth.Waits.{tries, Ascending, last_of, assured, tries-le, tries-assured}

-- What the server asks of the limiter: an attempt at an instant, and the reset behind a sign-in.
pub data Call : Type 0 where
  tried : ℕ → String → Call
  signed_in : String → Call

-- How many of an address's attempts are let through.
unfoldable pub allowed : List Call → String → List Entry → ℕ
allowed [] ip es = 0
allowed (tried t a ∷ cs) ip es =
    let r = attempt t a es in (if str_eq ip a && r.1 then 1 else 0) + allowed cs ip r.0
allowed (signed_in a ∷ cs) ip es = allowed cs ip (reset a es)

-- The instants of an address's attempts.
abbrev pub instants_of : String → List Call → List ℕ
instants_of ip [] = []
instants_of ip (tried t a ∷ cs) = if str_eq ip a then t ∷ instants_of ip cs else instants_of ip cs
instants_of ip (signed_in a ∷ cs) = instants_of ip cs

-- The address does not sign in.
abbrev pub SignsNot : String → List Call → Type 0
SignsNot ip [] = Unit
SignsNot ip (tried t a ∷ cs) = SignsNot ip cs
SignsNot ip (signed_in a ∷ cs) = (str_eq ip a ≡ false) × SignsNot ip cs

tries_of-put : (ip : String) (a : Attempt) (es : List Entry) → tries_of ip (put ip a es) ≡ a
unfolding put
tries_of-put ip a [] = rw (str_eq_refl ip) refl
tries_of-put ip a (e ∷ es) = elim (Bool-cases (str_eq ip e.ip)) [
  | inl h ↦ rw (h, str_eq_refl ip) refl
  | inr h ↦ rw (h, h) (tries_of-put ip a es)
]

tries_of-put-other :
    (ip b : String) (a : Attempt) (es : List Entry)
    → str_eq ip b ≡ false
    → tries_of ip (put b a es) ≡ tries_of ip es
unfolding put
tries_of-put-other ip b a [] h = rw h refl
tries_of-put-other ip b a (e ∷ es) h = elim (Bool-cases (str_eq b e.ip)) [
  | inl k ↦
      let other : str_eq ip e.ip ≡ false =
        subst (λ x. str_eq ip x ≡ false) ((str_eq_iff b e.ip).0 k) h in
      rw (k, h, other) refl
  | inr k ↦ ground (arith, tries_of-put-other ip b a es h)
]

tries_of-reset :
    (ip b : String) (es : List Entry)
    → str_eq ip b ≡ false
    → tries_of ip (reset b es) ≡ tries_of ip es
unfolding reset
tries_of-reset ip b [] h = refl
tries_of-reset ip b (e ∷ es) h = elim (Bool-cases (str_eq b e.ip)) [
  | inl k ↦
      let other : str_eq ip e.ip ≡ false =
        subst (λ x. str_eq ip x ≡ false) ((str_eq_iff b e.ip).0 k) h in
      rw (k, other) (tries_of-reset ip b es h)
  | inr k ↦ ground (arith, tries_of-reset ip b es h)
]

length-put :
    (ip : String) (a : Attempt) (es : List Entry)
    → (length es ≤ length (put ip a es)) × (length (put ip a es) ≤ suc (length es))
unfolding put
length-put ip a [] = (omega arith, omega arith)
length-put ip a (e ∷ es) = ground (arith, length-put ip a es)

-- The map is not swept below its bound.
attempt-unswept :
    (t : ℕ) (ip : String) (es : List Entry)
    → length es ≤ max_limiter_entries
    → attempt t ip es ≡ (
        if ltb t (tries_of ip es).until
        then (put ip (tries_of ip es) es, false)
        else (put ip (counted t (tries_of ip es)) es, true))
unfolding attempt sweep
attempt-unswept t ip es h =
    let unswept : ltb max_limiter_entries (length es) ≡ false = ground (arith) in rw unswept refl

attempt-put :
    (t : ℕ) (ip : String) (es : List Entry)
    → length es ≤ max_limiter_entries
    → (a : Attempt) × ((attempt t ip es).0 ≡ put ip a es)
attempt-put t ip es h = elim (Bool-cases (ltb t (tries_of ip es).until)) [
  | inl e ↦ (tries_of ip es, ap (λ r. r.0) (attempt-unswept t ip es h) ∙ rw e refl)
  | inr e ↦ (counted t (tries_of ip es), ap (λ r. r.0) (attempt-unswept t ip es h) ∙ rw e refl)
]

own-attempt :
    (t : ℕ) (cs : List Call) (ip : String) (es : List Entry)
    → length es ≤ max_limiter_entries
    → ((a : Attempt) → allowed cs ip (put ip a es) ≡ tries (instants_of ip cs) a)
    → allowed (tried t ip ∷ cs) ip es ≡ tries (instants_of ip (tried t ip ∷ cs)) (tries_of ip es)
unfolding allowed tries
own-attempt t cs ip es h rest =
    ap (λ (r : List Entry × Bool). (if str_eq ip ip && r.1 then 1 else 0) + allowed cs ip r.0)
      (attempt-unswept t ip es h)
    ∙ (elim (Bool-cases (ltb t (tries_of ip es).until)) [
      | inl e ↦ rw (str_eq_refl ip, e) (ground (arith, rest (tries_of ip es)))
      | inr e ↦ rw (str_eq_refl ip, e) (ground (arith, rest (counted t (tries_of ip es))))
    ])

allowed-tries :
    (cs : List Call) (ip : String) (es : List Entry)
    → SignsNot ip cs
    → length es + length cs ≤ max_limiter_entries
    → allowed cs ip es ≡ tries (instants_of ip cs) (tries_of ip es)
unfolding allowed tries reset
allowed-tries [] ip es n h = refl
allowed-tries (signed_in b ∷ cs) ip es n h =
    allowed-tries cs ip (reset b es) n.1
      (omega (arith, length-keep (λ (e : Entry). not (str_eq b e.ip)) es, h))
    ∙ ap (tries (instants_of ip cs)) (tries_of-reset ip b es n.0)
allowed-tries (tried t b ∷ cs) ip es n h = elim (Bool-cases (str_eq ip b)) [
  | inr e ↦
      let p = attempt-put t b es (omega (arith, h)) in
      let rest = allowed-tries cs ip (put b p.0 es) n (omega (arith, length-put b p.0 es)) in
      rw (e, p.1) (ground (arith, rest, tries_of-put-other ip b p.0 es e))
  | inl e ↦
      let rest : (a : Attempt) → allowed cs ip (put ip a es) ≡ tries (instants_of ip cs) a = λ a.
        allowed-tries cs ip (put ip a es) n (omega (arith, length-put ip a es, h))
        ∙ ap (tries (instants_of ip cs)) (tries_of-put ip a es) in
      subst
        (λ x.
          allowed (tried t x ∷ cs) ip es ≡ tries (instants_of ip (tried t x ∷ cs)) (tries_of ip es))
        ((str_eq_iff ip b).0 e) (own-attempt t cs ip es (omega (arith, h)) rest)
]

-- Calls of the limiter for any addresses, of which one begins with nothing counted and does not sign
-- in, its attempts at instants in order from s on, while the map has room for an entry per call and so
-- is not swept. At least the address's first five attempts are let through, and each that comes a
-- minute or more behind its one before; and n beyond the fifth that are let through take 2 n seconds
-- at least.
pub allowed_bounds :
    (cs : List Call) (s : ℕ) (ip : String) (es : List Entry)
    → Ascending s (instants_of ip cs)
    → SignsNot ip cs
    → tries_of ip es ≡ fresh
    → length es + length cs ≤ max_limiter_entries
    → (assured 5 s (instants_of ip cs) ≤ allowed cs ip es)
      × (2 * second * (allowed cs ip es - 5) ≤ last_of s (instants_of ip cs) - s)
allowed_bounds cs s ip es o n h k =
    let ts = instants_of ip cs in
    rw (allowed-tries cs ip es n k, h)
      (
        tries-assured ts 5 s fresh (inl (omega arith)) (inl (omega arith)) (omega arith) o,
        let few = tries-le ts s fresh (omega arith) (omega arith) o in omega (arith, few),
      )
