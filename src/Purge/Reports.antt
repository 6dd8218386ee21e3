-- ===== src/Purge/Reports.antt =====
-- worker/purge.go: which photos the reports of refused keys hold back.
use fragments.Base.{
  String, true, false, ◌≡◌, ◌≢◌, refl, none, List, [], ◌∷◌, map, arith, str_eq_iff, keep, All,
  in_list, in_list-append,
}
use fragments.Store.Discard.{DiscardedPhoto}
use fragments.Bucket.Delete.{DeleteError}
use fragments.Bucket.Gone.{failed_key}
use fragments.Purge.{kb, photo_keys, batch_keys, failed_message, refusal, was_erased}

-- `x` is an object of every listed photo of the key.
abbrev pub Owns : String → String → List DiscardedPhoto → Type 0
Owns k x = All (λ p. p.key_base ≡ k → in_list x (photo_keys p) ≡ true)

failed_message-none :
    (x : String) (es : List DeleteError)
    → in_list x (map failed_key es) ≡ true
    → failed_message x es ≢ none
unfolding failed_message
failed_message-none x [] h = cc
failed_message-none x (e ∷ es) h =
    ground (arith, str_eq_iff e.key x, str_eq_iff x e.key, failed_message-none x es)

-- A photo with a reported object is not erased.
was_erased-reported :
    (es : List DeleteError) (p : DiscardedPhoto) (x : String)
    → in_list x (photo_keys p) ≡ true
    → in_list x (map failed_key es) ≡ true
    → was_erased es p ≡ false
unfolding refusal photo_keys
was_erased-reported es p x own told =
    ground (arith, str_eq_iff x p.jpeg_key, str_eq_iff x p.raf_key, failed_message-none x es told)

pub in_list-batch_keys :
    (k x : String) (ps : List DiscardedPhoto)
    → Owns k x ps
    → in_list k (map kb ps) ≡ true
    → in_list x (batch_keys ps) ≡ true
unfolding batch_keys
in_list-batch_keys k x [] own h = cc
in_list-batch_keys k x (p ∷ ps) own h = ground (
  arith,
  str_eq_iff k p.key_base,
  in_list-append x (photo_keys p) (batch_keys ps),
  in_list-batch_keys k x ps own.1,
)

pub in_list-keep_reported :
    (k x : String) (es : List DeleteError) (ps : List DiscardedPhoto)
    → in_list x (map failed_key es) ≡ true
    → Owns k x ps
    → in_list k (map kb (keep (was_erased es) ps)) ≡ false
in_list-keep_reported k x es [] told own = refl
in_list-keep_reported k x es (p ∷ ps) told own = ground (
  arith,
  str_eq_iff k p.key_base,
  was_erased-reported es p x,
  in_list-keep_reported k x es ps told own.1,
)
