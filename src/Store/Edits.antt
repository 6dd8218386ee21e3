-- ===== src/Store/Edits.antt =====
-- The calls that change the table `photos`: ratings and decisions from the gallery, a recatalogue,
-- and deletions by a purge or a reconciliation.
use fragments.Base.{ℕ, String, Option, List, [], ◌∷◌, ℤ}
use fragments.Store.Rows.{Photo, Store, upsert}
use fragments.Store.Select.{Answer, done, refused, set_rating, set_decision}
use fragments.Store.Discard.{delete_photos}

pub data Edit : Type 0 where
  rates : String → ℤ → String → Edit
  decides : String → String → String → Edit
  catalogs : Photo → String → Edit
  deletes : (ℕ → Option String) → List String → Edit

-- A refused request changes nothing.
abbrev pub after : Store → Answer → Store
after s (done t matched) = t
after s (refused e) = s

unfoldable pub serve : Edit → Store → Store
serve (rates k n now) s = after s (set_rating k n now s)
serve (decides k d now) s = after s (set_decision k d now s)
serve (catalogs p now) s = upsert p now s
serve (deletes fault ks) s = (delete_photos fault ks s).0

unfoldable pub serve_all : List Edit → Store → Store
unfolding serve
serve_all [] s = s
serve_all (e ∷ es) s = serve_all es (serve e s)
