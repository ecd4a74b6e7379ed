-- ===== src/Operad/Loader/Colors.antt =====
-- internal/operad/loader.go: the color section of the ontology.
use moos_kernel.Prelude.{
  String, Bool, true, false, not, ◌||◌, Option, none, some, List, [], ◌∷◌, map, ◌==◌, if◌then◌else◌,
  Result, ok, err, ◌>>=◌, ◌>>◌, reject_if, Map, get, put, contains, set_add, sort_strings,
}
use moos_kernel.Graph.{Value, bool, str}
use moos_kernel.Operad.Loader.{
  LoadError, unknown_color, listed_twice, undeclared_row, null_row, undeclared_column, invalid_cell,
  null_color, empty_color, undeclared_color,
}

-- `kernelPortColors`
abbrev pub kernel_port_colors : List String
kernel_port_colors =
    "auth" ∷ "topology" ∷ "transport" ∷ "compute" ∷ "storage" ∷ "workflow" ∷ "semantic"
    ∷ "projection" ∷ []

-- `knownPortColor`
abbrev pub known_port_color : String → Bool
known_port_color c = contains c kernel_port_colors

unfoldable pub declare_colors : List String → List String → Result LoadError (List String)
declare_colors [] declared = ok declared
declare_colors (c ∷ raw) declared = do
  reject_if (not (known_port_color c)) (unknown_color c)
  reject_if (contains c declared) (listed_twice c)
  declare_colors raw (set_add c declared)

-- `declaredPortColors`
unfoldable pub declared_port_colors : Option (List String) → Result LoadError (List String)
unfolding declare_colors
declared_port_colors none = ok kernel_port_colors
declared_port_colors (some raw) = declare_colors raw []

-- `parseColorCell`
unfoldable pub parse_color_cell : Option Value → Option String
parse_color_cell (some (bool true)) = some "true"
parse_color_cell (some (bool false)) = some "false"
parse_color_cell (some (str s)) = if s == "wf15_only" || s == "sink_only" then some s else none
parse_color_cell _ = none

unfoldable pub parse_columns :
    List String → String → Map Value → List String → Map String → Result LoadError (Map String)
unfolding parse_color_cell
parse_columns declared src row [] cells = ok cells
parse_columns declared src row (tgt ∷ cols) cells = do
  reject_if (not (contains tgt declared)) (undeclared_column src tgt)
  elim (parse_color_cell (get tgt row)) [
    | none ↦ err (invalid_cell src tgt)
    | some cell ↦ parse_columns declared src row cols (put tgt cell cells)
  ]

abbrev pub sorted_keys : {V : Type 0} → Map V → List String
sorted_keys m = sort_strings (map (λ entry. entry.0) m)

abbrev pub parse_row :
    List String → String → Option (Option (Map Value)) → Result LoadError (Map String)
parse_row declared src (some (some row)) = parse_columns declared src row (sorted_keys row) []
parse_row declared src _ = err (null_row src)

unfoldable pub parse_rows :
    List String
    → Map (Option (Map Value))
    → List String
    → Map (Map String)
    → Result LoadError (Map (Map String))
unfolding parse_columns
parse_rows declared raw [] m = ok m
parse_rows declared raw (src ∷ rows) m = do
  reject_if (not (contains src declared)) (undeclared_row src)
  parse_row declared src (get src raw) >>= λ cells. parse_rows declared raw rows (put src cells m)

-- `parseColorMatrix`
unfoldable pub parse_color_matrix :
    Map (Option (Map Value)) → List String → Result LoadError (Map (Map String))
unfolding parse_rows
parse_color_matrix raw declared = parse_rows declared raw (sorted_keys raw) []

-- The ontology's own colors, in `LoadRegistry`.
unfoldable pub own_colors :
    List String → Map (Option String) → Map String → Result LoadError (Map String)
own_colors declared [] own = ok own
own_colors declared ((port, none) ∷ raw) own = err (null_color port)
own_colors declared ((port, some color) ∷ raw) own = do
  reject_if (color == "") (empty_color port)
  reject_if (not (contains color declared)) (undeclared_color color port)
  own_colors declared raw (put port color own)
