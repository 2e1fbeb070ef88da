-- ===== src/Json/Value.antt =====
-- `struct J` of src/jsonl.hpp, and `m[key] = value` on its std::map.
use acx_contact_cli.Prelude.{Bool, Bytes, Option, none, some, same, before, if◌then◌else◌}

mutual
  pub data Json (D : Type 0) : Type 0 where
    null : Json D
    bool : Bool → Json D
    number : D → Json D
    string : Bytes → Json D
    array : Items D → Json D
    object : Members D → Json D

  pub data Items (D : Type 0) : Type 0 where
    nil : Items D
    item : Json D → Items D → Items D

  pub data Members (D : Type 0) : Type 0 where
    end : Members D
    member : Bytes → Json D → Members D → Members D

module _ {D : Type 0} where
  -- `m[key] = value` on a std::map
  unfoldable pub assign : Bytes → Json D → Members D → Members D
  unfolding same before
  assign key value end = member key value end
  assign key value (member k v m) =
      let later = member k v (assign key value m) in
      if same key k
      then member key value m
      else if before key k
      then member key value (member k v m)
      else later

  -- `m.find(key)`
  unfoldable pub lookup : Bytes → Members D → Option (Json D)
  unfolding same
  lookup key end = none
  lookup key (member k v m) = if same key k then some v else lookup key m
