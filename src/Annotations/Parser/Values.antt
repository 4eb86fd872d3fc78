-- ===== src/Annotations/Parser/Values.antt =====
-- The values of annotations in internal/annotations/parser.go.
use spotalis.Common.{String, ◌≡◌, true, false, if◌then◌else◌, Option, none, some, [], str_eq, arith}
use spotalis.Common.Text.{Text}
use spotalis.Kube.{StringMap, ObjectMeta}
use spotalis.Annotations.Parser.{get_annotation_value, set_annotation_value, remove_annotation}

-- The lookup after a removal, by the maps that an object can have.
removed :
    (l m : Option StringMap) (key j : String)
    → get_annotation_value (remove_annotation key (record { labels = l; annotations = m })) j ≡ (
        if str_eq j key
        then ([], false)
        else get_annotation_value (record { labels = l; annotations = m }) j)
unfolding get_annotation_value remove_annotation
removed l none key j = ground arith
removed l (some m) key j = ground arith

module _ (key j : String) (value : Text) (obj : ObjectMeta) where
  -- After a value has been set it is found, and every other key has the value that it had; after it
  -- has been removed the key has no value, and every other key has the value that it had.
  pub get-set-remove :
      (get_annotation_value (set_annotation_value key value obj) j
        ≡ (if str_eq j key then (value, true) else get_annotation_value obj j))
      × (get_annotation_value (remove_annotation key obj) j
          ≡ (if str_eq j key then ([], false) else get_annotation_value obj j))
  unfolding get_annotation_value set_annotation_value
  get-set-remove = (ground arith, removed obj.labels obj.annotations key j)
