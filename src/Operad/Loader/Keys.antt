-- ===== src/Operad/Loader/Keys.antt =====
-- internal/operad/loader.go, `checkColorSectionKeys`: no key of the color section stands twice.
use moos_kernel.Prelude.{
  String, Bool, Option, none, some, List, [], ◌∷◌, if◌then◌else◌, ◌==◌, Result, ok, err, ◌>>=◌,
  ◌>>◌, reject_if, Map, get, put, contains, set_add,
}
use moos_kernel.Operad.Loader.{LoadError, duplicate_key, unscannable}

-- Go's JSON decoder on the raw text of a value: the keys of an object with the raw values, up to the
-- first error, and no key for another value; and `strings.EqualFold`.
pub record Scanner : Type 0 where
  pub keys : String → List (String × String) × Option String
  pub equal_fold : String → String → Bool

-- The end of `eachJSONKey`, after its last key.
abbrev pub scan_end : Option String → Result LoadError (Unit {0})
scan_end none = ok tt
scan_end (some e) = err (unscannable e)

unfoldable pub unique_keys :
    String
    → (String → String → Result LoadError (Unit {0}))
    → List (String × String)
    → List String
    → Option String
    → Result LoadError (Unit {0})
unique_keys what each [] seen stop = scan_end stop
unique_keys what each ((key, val) ∷ rest) seen stop = do
  reject_if (contains key seen) (duplicate_key what key)
  each key val
  unique_keys what each rest (set_add key seen) stop

module _ (scanner : Scanner) where
  -- `uniqueJSONKeys`
  unfoldable pub unique_json_keys :
      String
      → String
      → (String → String → Result LoadError (Unit {0}))
      → Result LoadError (Unit {0})
  unfolding unique_keys
  unique_json_keys raw what each =
      unique_keys what each (scanner.keys raw).0 [] (scanner.keys raw).1

  abbrev pub loaded_name : String → Option String
  loaded_name key =
      if scanner.equal_fold key "port_color_map"
      then some "port_color_map"
      else if scanner.equal_fold key "matrix"
      then some "matrix"
      else if scanner.equal_fold key "port_colors"
      then some "port_colors"
      else none

  abbrev pub no_more : String → String → Result LoadError (Unit {0})
  no_more key val = ok tt

  -- The check of one of the three sections.
  unfoldable pub check_section : String → String → Result LoadError (Unit {0})
  unfolding unique_json_keys
  check_section name val =
      if name == "port_color_map"
      then unique_json_keys val "port" no_more
      else if name == "matrix"
      then unique_json_keys val "row" (λ row cols. unique_json_keys cols "column" no_more)
      else ok tt

  unfoldable pub check_sections :
      List (String × String) → Map String → Option String → Result LoadError (Unit {0})
  unfolding check_section
  check_sections [] seen stop = scan_end stop
  check_sections ((key, val) ∷ rest) seen stop = elim (loaded_name key) [
    | none ↦ check_sections rest seen stop
    | some name ↦ elim (get name seen) [
      | some first ↦ err (duplicate_key "port_color_compatibility" key)
      | none ↦ do check_section name val; check_sections rest (put name key seen) stop
    ]
  ]

  -- The section, if the ontology has one.
  unfoldable pub find_section :
      List (String × String) → Option String → Option String → Result LoadError (Option String)
  find_section [] section none = ok section
  find_section [] section (some e) = err (unscannable e)
  find_section ((key, val) ∷ rest) section stop =
      if scanner.equal_fold key "port_color_compatibility"
      then elim section [
        | some _ ↦ err (duplicate_key "ontology" key)
        | none ↦ find_section rest (some val) stop
      ]
      else find_section rest section stop

  -- `checkColorSectionKeys`
  unfoldable pub check_color_section_keys : String → Result LoadError (Unit {0})
  unfolding find_section check_sections
  check_color_section_keys text =
      find_section (scanner.keys text).0 none (scanner.keys text).1 >>= λ section. elim section [
        | none ↦ ok tt
        | some raw ↦ check_sections (scanner.keys raw).0 [] (scanner.keys raw).1
      ]
