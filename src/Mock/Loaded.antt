-- ===== src/Mock/Loaded.antt =====
-- What a loaded map holds: the last item of each id.
use system_design_homework.Prelude.{
  String, ◌≡◌, refl, Option, none, some, List, [], ◌∷◌, ◌==◌, arith, if◌then◌else◌,
}
use system_design_homework.Mock.{Map, lookup, assign_all}

abbrev pub or_else : {A : Type 0} → Option A → Option A → Option A
or_else none b = b
or_else (some a) b = some a

module _ {A : Type 0} (id_of : A → String) where
  -- The last item of the list with the id.
  abbrev pub last_with : String → List A → Option A
  last_with id [] = none
  last_with id (a ∷ items) = or_else (last_with id items) (if id_of a == id then some a else none)

  lookup-assign_all :
      (id : String) (items : List A) (m : Map A)
      → lookup id (assign_all id_of items m) ≡ or_else (last_with id items) (lookup id m)
  unfolding lookup assign_all
  lookup-assign_all id [] m = refl
  lookup-assign_all id (a ∷ items) m = ground (arith, lookup-assign_all id items ((id_of a, a) ∷ m))

  pub lookup-loaded :
      (id : String) (items : List A) → lookup id (assign_all id_of items []) ≡ last_with id items
  unfolding lookup
  lookup-loaded id items = ground (arith, lookup-assign_all id items [])
