-- ===== src/Assignment/Package.antt =====
-- What the calendar takes from a working package: `_projection_labels` and
-- `_day_locations_json_from_package`.
use guide_os.Prelude.{zero, false, String, ◌==◌, text_eq, Option, none, some, if◌then◌else◌}
use guide_os.Prelude.Text.{strip}
use guide_os.Json.{
  Json, null, boolean, number, text, array, object, Items, nil, cons, Fields, end, field, get,
}
use guide_os.Platform.{Platform}

-- `a or b`: Python's truth of a value
or_json : Json → Json → Json
or_json null b = b
or_json (boolean false) b = b
or_json (number zero) b = b
or_json (text s) b = if s == "" then b else text s
or_json (array nil) b = b
or_json (object end) b = b
or_json a b = a

-- `raw.strip() if isinstance(raw, str) and raw.strip() else default`
label : Json → String → String
label (text s) default = if strip s == "" then default else strip s
label _ default = default

labels_of_tour : String → Json → String × String
unfolding or_json label
labels_of_tour company_name (object tour) = (
  label (or_json (get "title" tour) (get "reference" tour)) company_name,
  label (get "city_or_route" tour) "—",
)
labels_of_tour company_name _ = (company_name, "—")

-- The title and the city of the projection.
unfoldable pub projection_labels : String → Fields → String × String
unfolding labels_of_tour
projection_labels company_name working_package =
    labels_of_tour company_name (get "tour" working_package)

-- `locations[key] = value`, on an insertion-ordered dict
assign : String → String → Fields → Fields
assign k v end = field k (text v) end
assign k v (field j w rest) = if j == k then field j (text v) rest else field j w (assign k v rest)

add_location : Json → Json → Fields → Fields
unfolding assign
add_location (text date) (text city) locations =
    if strip date == ""
    then locations
    else if strip city == ""
    then locations
    else assign (strip date) (strip city) locations
add_location _ _ locations = locations

add_day : Json → Fields → Fields
unfolding add_location or_json
add_day (object day) locations =
    add_location (get "date" day) (or_json (get "city_or_route" day) (get "cityOrRoute" day))
      locations
add_day _ locations = locations

add_days : Items → Fields → Fields
unfolding add_day
add_days nil locations = locations
add_days (cons day days) locations = add_days days (add_day day locations)

render_locations : Platform → Fields → Option String
render_locations env end = none
render_locations env locations = some (env.dumps_unsorted (object locations))

locations_of_days : Platform → Json → Option String
unfolding add_days render_locations
locations_of_days env (array days) = render_locations env (add_days days end)
locations_of_days env _ = none

unfoldable pub day_locations_json_from_package : Platform → Fields → Option String
unfolding locations_of_days
day_locations_json_from_package env working_package =
    locations_of_days env (get "days" working_package)
