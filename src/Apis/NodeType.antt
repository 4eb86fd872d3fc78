-- ===== src/Apis/NodeType.antt =====
-- NodeType of pkg/apis/node_classification.go. A missing entry of a Go map is the empty string, which
-- is none of the three: a map of node types is a function into Option.
use spotalis.Common.{String, Option}

pub data NodeType : Type 0 where
  spot on_demand unknown : NodeType

abbrev pub NodeTypes : Type 0
NodeTypes = String → Option NodeType
