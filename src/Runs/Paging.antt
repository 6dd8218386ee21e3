-- ===== src/Runs/Paging.antt =====
-- catalog/query.go on two photos, one of them with a capture time, a page of one item at a time.
use mathlib.Core.List.{Perm}
use fragments.Base.{
  ℕ, ◌≡◌, arith, Option, none, some, List, [], ◌∷◌, pos, keep, map, InOrder, String,
}
use fragments.Store.Rows.{Row, Store, listed_columns, exif_columns}
use fragments.Store.Select.{PhotoFilter, photo_where}
use fragments.Pages.Page.{row_before, scan_list_item}
use fragments.Pages.Complete.{follow, follow_complete}
use fragments.Runs.Data.{row, two_photos}

abbrev dated : Row
dated = record (row 2 "b" none (some 4)) {
  listed = record (row 2 "b" none (some 4)).listed {
    exif = record (row 2 "b" none (some 4)).listed.exif { taken_at = some "2024" };
  };
}

abbrev gallery : Store
gallery = record two_photos { photos = row 1 "a" (some "discard") none ∷ dated ∷ [] }

abbrev all_photos : PhotoFilter
all_photos = record {
  folder = "";
  film_simulation = "";
  camera_model = "";
  recipe = "";
  min_rating = 0;
  decision = "";
}

abbrev no_clock : String → String → Option ℕ
no_clock layout text = none

follow_complete_example :
    (rows : List Row) × Perm rows (keep (photo_where all_photos) gallery.photos)
    × InOrder row_before rows
    × (follow no_clock 3 all_photos (pos 1) gallery [] ≡ map (scan_list_item no_clock) rows)
unfolding listed_columns exif_columns
follow_complete_example =
    follow_complete no_clock all_photos (pos 1) gallery (ground (arith)) (ground (arith)) 3
      (omega arith)
