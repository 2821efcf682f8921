-- ===== src/Json.antt =====
-- The values of `nlohmann::json` that the parser builds, with the queries that the sources make of them.
-- An object is a `std::map`, so its members stand in the order of their keys.
use audd_cpp.Prelude.{ℕ, ◌≡◌, refl, ap, Bool, true, false, Option, none, List, [], ◌∷◌, String}
use audd_cpp.Prelude.Int.{ℤ}
use audd_cpp.Prelude.Text.{Text}
use audd_cpp.Prelude.Dict.{Dict, lookup}

-- `D` is `double`. The parser stores a number without a sign as `unsigned`.
mutual
  pub data Json (D : Type 0) : Type 0 where
    null : Json D
    boolean : Bool → Json D
    integer : ℤ → Json D
    unsigned : ℕ → Json D
    float : D → Json D
    str : Text → Json D
    array : Items D → Json D
    object : Members D → Json D

  pub data Items (D : Type 0) : Type 0 where
    nil : Items D
    cons : Json D → Items D → Items D

  pub data Members (D : Type 0) : Type 0 where
    end : Members D
    member : String → Json D → Members D → Members D

module _ {D : Type 0} where
  abbrev pub items : Items D → List (Json D)
  items nil = []
  items (cons v vs) = v ∷ items vs

  abbrev pub members : Members D → Dict (Json D)
  members end = []
  members (member k v ms) = (k, v) ∷ members ms

  abbrev pub from_members : Dict (Json D) → Members D
  from_members [] = end
  from_members ((k, v) ∷ ms) = member k v (from_members ms)

  pub members-from_members : (ms : Dict (Json D)) → members (from_members ms) ≡ ms
  members-from_members [] = refl
  members-from_members ((k, v) ∷ ms) = ap (λ l. (k, v) ∷ l) (members-from_members ms)

  abbrev pub is_object : Json D → Bool
  is_object (object ms) = true
  is_object _ = false

  abbrev pub is_array : Json D → Bool
  is_array (array vs) = true
  is_array _ = false

  abbrev pub is_null : Json D → Bool
  is_null null = true
  is_null _ = false

  -- `j.find(key)`: `none` is `end()`, which a value that is no object gives too.
  unfoldable pub find : Json D → String → Option (Json D)
  unfolding lookup
  find (object ms) key = lookup key (members ms)
  find _ key = none

  -- The key and value pairs of `begin()` to `end()`, of an object.
  abbrev pub entries : Json D → Dict (Json D)
  entries (object ms) = members ms
  entries _ = []

  abbrev pub elements : Json D → List (Json D)
  elements (array vs) = items vs
  elements _ = []
