-- ===== src/Config/Yaml.antt =====
-- What src/config.c sees of a document that libyaml has loaded: a tree of nodes.
use emme.Prelude.{Bool, true, false, if◌then◌else◌, Option, none, some, Bytes, str_eq}

-- `yaml_node_t`; a scalar's value is a C string. The node's line goes to messages only.
mutual
  pub data Node : Type 0 where
    scalar : Bytes → Node
    sequence : Nodes → Node
    mapping : Pairs → Node

  pub data Nodes : Type 0 where
    no_items : Nodes
    item : Node → Nodes → Nodes

  pub data Pairs : Type 0 where
    no_pairs : Pairs
    pair : Node → Node → Pairs → Pairs

-- `key_node->type == YAML_SCALAR_NODE && strcmp(...) == 0`
unfoldable pub is_key : Bytes → Node → Bool
is_key key (scalar value) = str_eq value key
is_key key (sequence items) = false
is_key key (mapping pairs) = false

unfoldable pub find_pair : Bytes → Pairs → Option Node
find_pair key no_pairs = none
find_pair key (pair k v rest) = if is_key key k then some v else find_pair key rest

-- `find_yaml_node`
unfoldable pub find_yaml_node : Node → Bytes → Option Node
find_yaml_node (mapping pairs) key = find_pair key pairs
find_yaml_node (sequence items) key = none
find_yaml_node (scalar value) key = none

abbrev pub is_mapping : Node → Bool
is_mapping (mapping pairs) = true
is_mapping (sequence items) = false
is_mapping (scalar value) = false
