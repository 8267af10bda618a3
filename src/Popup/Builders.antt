-- ===== src/Popup/Builders.antt =====
-- The HTML of the stop popups: `featureBoolToEmoji`, `buildPopupHtmlFromDetailed`,
-- `buildLoadingPopupHtml`, `buildErrorPopupHtml` and `buildStopTooltipHtml`.
use simply_transport.Common.{
  Text, units, Bool, true, false, List, [], ◌∷◌, ◌++◌, map, length, if◌then◌else◌, Option, none,
  some,
}
use simply_transport.Js.Values.{Field, str, to_string, truthy, or_else}
use simply_transport.Js.Strings.{trim}
use simply_transport.Js.Decimal.{decimal}
use simply_transport.Popup.Escape.{escape_html}

-- StopMapStop of the map payloads; `F` is the type of coordinates.
pub record MapStop (F : Type 0) : Type 0 where
  pub stop_id : Text
  pub code : Field
  pub name : Field
  pub lon : F
  pub lat : F
  pub is_focus : Bool

-- The parts of StopDetailed.
pub record DetailedStop : Type 0 where
  pub id : Field
  pub code : Field
  pub name : Field

pub record DetailedRoute : Type 0 where
  pub route_id : Field
  pub short_name : Field
  pub long_name : Field

-- A value that is neither `true` nor `false` is `none`.
pub record StopFeatures : Type 0 where
  pub wheelchair_accessible : Option Bool
  pub shelter_active : Option Bool
  pub rtpi_active : Option Bool

-- A missing list of routes reads as the empty one.
pub record Detailed : Type 0 where
  pub stop : DetailedStop
  pub routes : List DetailedRoute
  pub stop_features : Option StopFeatures
  pub street_view_url : Field

unfoldable pub feature_bool_to_emoji : Option Bool → Text
feature_bool_to_emoji (some true) = units "✅"
feature_bool_to_emoji (some false) = units "❌"
feature_bool_to_emoji none = units "—"

-- `${stop.code || ""} - ${stop.name}` without white space at its ends.
unfoldable pub stop_title : Field → Field → Text
stop_title code name = trim (or_else code [] ++ units " - " ++ to_string name)

-- `Array.prototype.join`
unfoldable pub join : Text → List Text → Text
join sep [] = []
join sep (x ∷ []) = x
join sep (x ∷ y ∷ xs) = x ++ sep ++ join sep (y ∷ xs)

unfoldable pub route_html : Text → DetailedRoute → Text
route_html dir r =
    units "<a href=\"/realtime/route/"
    ++ escape_html r.route_id
    ++ units "/"
    ++ dir
    ++ units "\">"
    ++ escape_html r.short_name
    ++ units "</a> — "
    ++ escape_html r.long_name

unfoldable pub features_html : Option StopFeatures → Text
features_html none = []
features_html (some sf) =
    units "<p class=\"map-popup-block map-popup-muted\">Wheelchair accessible: "
    ++ feature_bool_to_emoji sf.wheelchair_accessible
    ++ units "<br>Bus shelter: "
    ++ feature_bool_to_emoji sf.shelter_active
    ++ units "<br>Realtime display: "
    ++ feature_bool_to_emoji sf.rtpi_active
    ++ units "</p>"

unfoldable pub street_block : Field → Text
street_block url =
    if truthy url
    then units "<p class=\"map-popup-block\"><a class=\"map-popup-link\" href=\""
      ++ escape_html url
      ++ units "\" target=\"_blank\" rel=\"noopener noreferrer\">Street view</a></p>"
    else []

-- The heading that links a stop's page.
unfoldable pub title_html : Field → Text → Text
title_html id title =
    units "<h4 class=\"map-popup-title\"><a href=\"/realtime/stop/"
    ++ escape_html id
    ++ units "\">"
    ++ escape_html (str title)
    ++ units "</a></h4>"

unfoldable pub build_popup_html_from_detailed : Detailed → Field → Text
unfolding route_html features_html street_block title_html
build_popup_html_from_detailed detail direction_for_route_links =
    let dir = or_else direction_for_route_links (units "OUTBOUND") in
    let routes_html = join (units "<br>") (map (route_html dir) detail.routes) in
    units "<div class=\"map-popup-inner\">"
    ++ title_html detail.stop.id (stop_title detail.stop.code detail.stop.name)
    ++ street_block detail.street_view_url
    ++ features_html detail.stop_features
    ++ units "<p class=\"map-popup-block map-popup-routes-head\"><strong>"
    ++ decimal (length detail.routes)
    ++ units " Routes</strong></p><p class=\"map-popup-routes\">"
    ++ routes_html
    ++ units "</p></div>"

module _ {F : Type 0} where
  unfoldable pub build_loading_popup_html : MapStop F → Text
  build_loading_popup_html stop =
      units "<div class=\"map-popup-inner\">"
      ++ title_html (str stop.stop_id) (stop_title stop.code stop.name)
      ++ units "<p class=\"map-popup-muted\">Loading routes…</p></div>"

  unfoldable pub build_error_popup_html : MapStop F → Text
  build_error_popup_html stop =
      units "<div class=\"map-popup-inner\">"
      ++ title_html (str stop.stop_id) (stop_title stop.code stop.name)
      ++ units "<p class=\"map-popup-muted\">Could not load stop details.</p></div>"

  unfoldable pub build_stop_tooltip_html : MapStop F → Text
  build_stop_tooltip_html stop =
      units "<div class=\"map-stop-tooltip-inner\">"
      ++ escape_html (str (stop_title stop.code stop.name))
      ++ units "</div>"
