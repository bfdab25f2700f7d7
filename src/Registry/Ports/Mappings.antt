-- ===== src/Registry/Ports/Mappings.antt =====
-- `portMappings` of server-registry.service.ts. `JSON.parse` is a parameter.
use agapornis_api.Common.{
  ℕ, String, Bool, Option, List, [], ◌∷◌, filter, get_or, if◌then◌else◌, ltb, string_eq,
}
use agapornis_api.Common.Text.{is_empty}
use agapornis_api.Common.Dict.{get}
use agapornis_api.Registry.Types.{Variables}

-- The `hostPort` of an item of the list: a whole number, a text, or another value, with whether
-- `Number` of it is above 0. An item without one is `other false`.
pub data HostPort : Type 0 where
  whole : ℕ → HostPort
  text : String → HostPort
  other : Bool → HostPort

-- `parse` gives the host ports of the list that `JSON.parse` reads in a text; `none`: it throws, or
-- the value is no list. `above_zero` is whether `Number(text) > 0`.
pub record Json : Type 0 where
  pub parse : String → Option (List HostPort)
  pub above_zero : String → Bool

abbrev pub is_above_zero : Json → HostPort → Bool
is_above_zero json (whole p) = ltb 0 p
is_above_zero json (text s) = json.above_zero s
is_above_zero json (other b) = b

-- `String(variables?.AGAPORNIS_PORT_MAPPINGS || '[]')`
abbrev pub mappings_text : Option Variables → String
mappings_text variables =
    let value = get_or (get "AGAPORNIS_PORT_MAPPINGS" (get_or variables [])) "" in
    if is_empty value then "[]" else value

unfoldable pub port_mappings : Json → Option Variables → List HostPort
port_mappings json variables =
    filter (is_above_zero json) (get_or (json.parse (mappings_text variables)) [])

-- What `has` of a number finds among the values of a set: a text is never equal to a number.
unfoldable pub whole_ports : List HostPort → List ℕ
whole_ports [] = []
whole_ports (whole p ∷ rest) = p ∷ whole_ports rest
whole_ports (text s ∷ rest) = whole_ports rest
whole_ports (other b ∷ rest) = whole_ports rest
