-- ===== src/Bucket/Delete.antt =====
-- Bucket.DeleteObjects of catalog/s3.go.
use Prim.Native.String.{◌++◌ as str_append}
use fragments.Base.{
  ℕ, String, Bool, true, false, ◌≡◌, Option, none, some, List, [], ◌∷◌, ◌++◌, map, ◌⊎◌, inl, inr,
  str_eq, if◌then◌else◌, chunks, in_list,
}

pub record DeleteError : Type 0 where
  pub key : String
  pub message : String

-- One entry of the response's Errors; a missing string reads "".
pub record S3Error : Type 0 where
  pub key : String
  pub code : String
  pub message : String

-- The SDK's client over its remote state: one DeleteObjects call answers with the keys it refused,
-- or fails as a whole. `has` says which objects the bucket holds.
pub record Client (R : Type 0) : Type 0 where
  pub delete_call : List String → R → R × (List S3Error ⊎ String)
  pub has : String → R → Bool

abbrev pub error_key : S3Error → String
error_key e = e.key

-- What the S3 documentation says of a call: a key that is not reported is absent afterwards, and no
-- call makes an object appear.
pub record IsS3 {R : Type 0} (c : Client R) : Type 0 where
  pub deletes :
      (ks : List String) (r : R) (es : List S3Error) (k : String)
      → (c.delete_call ks r).1 ≡ inl es
      → in_list k ks ≡ true
      → in_list k (map error_key es) ≡ false
      → c.has k (c.delete_call ks r).0 ≡ false
  pub creates_none :
      (ks : List String) (r : R) (k : String)
      → c.has k r ≡ false
      → c.has k (c.delete_call ks r).0 ≡ false

abbrev pub max_batch : ℕ
max_batch = 1000

unfoldable pub delete_error : S3Error → DeleteError
delete_error e = record {
  key = e.key;
  message = if str_eq e.code "" then e.message else str_append e.code (str_append ": " e.message);
}

pub record Deleted (R : Type 0) : Type 0 where
  pub remote : R
  pub failed : List DeleteError
  pub fatal : Option String

module _ {R : Type 0} (c : Client R) where
  -- A failed call stops the loop and returns what was collected before it.
  unfoldable pub delete_loop : List (List String) → R → List DeleteError → Deleted R
  delete_loop [] r failed = record { remote = r; failed = failed; fatal = none }
  delete_loop (b ∷ bs) r failed = elim ((c.delete_call b r).1) [
    | inl es ↦ delete_loop bs (c.delete_call b r).0 (failed ++ map delete_error es)
    | inr e ↦ record {
      remote = (c.delete_call b r).0;
      failed = failed;
      fatal = some (str_append "delete objects: " e);
    }
  ]

  unfoldable pub delete_objects : List String → R → Deleted R
  unfolding delete_loop delete_error chunks
  delete_objects keys r = delete_loop (chunks max_batch keys) r []
