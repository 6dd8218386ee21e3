-- ===== src/Bucket/Gone.antt =====
-- What a client that keeps S3's promises has erased when DeleteObjects of catalog/s3.go returns.
use fragments.Base.{
  String, true, false, ◌≡◌, refl, sym, ◌∙◌, ap, none, List, [], ◌∷◌, ◌++◌, map, arith, inl, inr,
  in_list, in_list-append, concat, chunks, concat-chunks, map-append, Bool-cases, Sum-cases,
}
use fragments.Bucket.Delete.{
  DeleteError, S3Error, Client, IsS3, error_key, delete_error, max_batch, delete_loop,
  delete_objects,
}

abbrev pub failed_key : DeleteError → String
failed_key e = e.key

keys-delete_error : (es : List S3Error) → map failed_key (map delete_error es) ≡ map error_key es
unfolding delete_error
keys-delete_error [] = refl
keys-delete_error (e ∷ es) = ap (◌∷◌ e.key) (keys-delete_error es)

module _ {R : Type 0} (c : Client R) (s3 : IsS3 c) (x : String) where
  delete_loop-absent :
      (bs : List (List String)) (r : R) (failed : List DeleteError)
      → c.has x r ≡ false
      → c.has x (delete_loop c bs r failed).remote ≡ false
  unfolding delete_loop
  delete_loop-absent [] r failed h = h
  delete_loop-absent (b ∷ bs) r failed h = elim (Sum-cases (c.delete_call b r).1) [
    | inl (es, e) ↦
        rw (e, delete_loop)
          (delete_loop-absent bs (c.delete_call b r).0 (failed ++ map delete_error es)
            (s3.creates_none b r x h))
    | inr (m, e) ↦ rw (e, delete_loop) (s3.creates_none b r x h)
  ]

  delete_loop-reported :
      (bs : List (List String)) (r : R) (failed : List DeleteError)
      → in_list x (map failed_key failed) ≡ true
      → in_list x (map failed_key (delete_loop c bs r failed).failed) ≡ true
  unfolding delete_loop
  delete_loop-reported [] r failed h = h
  delete_loop-reported (b ∷ bs) r failed h = elim (Sum-cases (c.delete_call b r).1) [
    | inl (es, e) ↦
        rw (e, delete_loop)
          (delete_loop-reported bs (c.delete_call b r).0 (failed ++ map delete_error es) (
            rw
              (
                map-append failed_key failed (map delete_error es),
                in_list-append x (map failed_key failed),
                h,
              )
              refl))
    | inr (m, e) ↦ rw (e, delete_loop) h
  ]

  delete_loop-erases :
      (bs : List (List String)) (r : R) (failed : List DeleteError)
      → (delete_loop c bs r failed).fatal ≡ none
      → in_list x (concat bs) ≡ true
      → c.has x (delete_loop c bs r failed).remote ≡ true
      → in_list x (map failed_key (delete_loop c bs r failed).failed) ≡ true
  unfolding delete_loop
  delete_loop-erases [] r failed f h p = cc
  delete_loop-erases (b ∷ bs) r failed f h p = elim (Sum-cases (c.delete_call b r).1) [
    | inl (es, e) ↦
        (let r' = (c.delete_call b r).0 in
          let failed' = failed ++ map delete_error es in
          rw (e, delete_loop)
            (elim (Bool-cases (in_list x b)) [
              | inr later ↦
                  delete_loop-erases bs r' failed' (rw (e, delete_loop) at f)
                    (sym (rw later refl) ∙ sym (in_list-append x b (concat bs)) ∙ h)
                    (rw (e, delete_loop) at p)
              | inl here ↦ (elim (Bool-cases (in_list x (map error_key es))) [
                | inl told ↦ delete_loop-reported bs r' failed' (
                    rw
                      (
                        map-append failed_key failed (map delete_error es),
                        in_list-append x (map failed_key failed),
                        keys-delete_error es,
                        told,
                      )
                      (ground arith))
                | inr silent ↦ absurd (
                    cc (
                      delete_loop-absent bs r' failed' (s3.deletes b r es x e here silent),
                      rw (e, delete_loop) at p,
                    ))
              ])
            ]))
    | inr (m, e) ↦ absurd (cc (rw (e, delete_loop) at f))
  ]

  -- With a client that keeps S3's promises: of the keys asked for, one whose object is still there
  -- after DeleteObjects returns no error is among the reported ones.
  pub delete_objects-erases :
      (keys : List String) (r : R)
      → (delete_objects c keys r).fatal ≡ none
      → in_list x keys ≡ true
      → c.has x (delete_objects c keys r).remote ≡ true
      → in_list x (map failed_key (delete_objects c keys r).failed) ≡ true
  unfolding delete_objects
  delete_objects-erases keys r f h p =
      delete_loop-erases (chunks max_batch keys) r [] f
        (ap (in_list x) (concat-chunks max_batch keys (omega arith)) ∙ h) p

  -- An absent object stays absent.
  pub delete_objects-absent :
      (keys : List String) (r : R)
      → c.has x r ≡ false
      → c.has x (delete_objects c keys r).remote ≡ false
  unfolding delete_objects
  delete_objects-absent keys r h = delete_loop-absent (chunks max_batch keys) r [] h
