-- ===== src/Runs/Naming.antt =====
-- catalog/recipes.go: an empty library that takes three writes.
use fragments.Base.{ℕ, String, true, List, [], ◌∷◌}
use fragments.Recipe.{default_recipe_fields}
use fragments.Library.{Library, Draft}
use fragments.Library.Unique.{IsLibrary, Write, create, update, write_all, write_all-IsLibrary}

abbrev draft : String → Draft
draft name = record {
  name = name;
  fields = default_recipe_fields;
  notes = "";
  author = "";
  author_url = "";
  source = "";
}

abbrev empty_library : Library
empty_library = record { recipes = []; next_recipe = 1 }

abbrev writes : List Write
writes =
    create true "t" (draft "Sunny")
    ∷ update true 1 (draft "Cloudy")
    ∷ create true "t" (draft "Rain")
    ∷ []

abbrev named_digest : List ℕ → String
named_digest bytes = "0123456789abcdef"

write_all-IsLibrary_example : IsLibrary named_digest (write_all named_digest writes empty_library)
write_all-IsLibrary_example = write_all-IsLibrary named_digest writes empty_library (tt, tt)
