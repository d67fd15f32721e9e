-- ===== src/Json.antt =====
-- The Python values that hooks and configuration files carry: trees of dicts, lists, tuples and leaves.
use hermeskill.Common.{
  ℕ, suc, String, Bool, max, Option, none, some, ◌==◌, string_eq, if◌then◌else◌,
}

-- The key of a dict: a text, or a value of another type.
pub data Key : Type 0 where
  name : String → Key
  opaque : ℕ → Key

-- A leaf that is no text: None, a number, or a value of any other type.
pub data Leaf : Type 0 where
  null : Leaf
  bool : Bool → Leaf
  num : ℕ → Leaf
  other : ℕ → Leaf

mutual
  pub data Json : Type 0 where
    leaf : Leaf → Json
    str : String → Json
    list : Items → Json
    tuple : Items → Json
    dict : Fields → Json

  pub data Items : Type 0 where
    end : Items
    item : Json → Items → Items

  -- In the order of insertion.
  pub data Fields : Type 0 where
    done : Fields
    field : Key → Json → Fields → Fields

-- d.get(k)
unfoldable pub lookup : String → Fields → Option Json
lookup k done = none
lookup k (field (Key.opaque n) v fs) = lookup k fs
lookup k (field (Key.name j) v fs) = if j == k then some v else lookup k fs

-- How many containers stand one in another.
unfoldable mutual
  pub depth : Json → ℕ
  depth (leaf l) = 0
  depth (str s) = 0
  depth (list xs) = suc (depth_items xs)
  depth (tuple xs) = suc (depth_items xs)
  depth (dict fs) = suc (depth_fields fs)

  pub depth_items : Items → ℕ
  depth_items end = 0
  depth_items (item x xs) = max (depth x) (depth_items xs)

  pub depth_fields : Fields → ℕ
  depth_fields done = 0
  depth_fields (field k v fs) = max (depth v) (depth_fields fs)
