-- ===== src/Shared/Marker.antt =====
-- `drawImageToMarkerImageData`, `rasterizeMonoMarkerForMap` and `loadMonoMarkerImage`. What the browser
-- answers comes as data; a callback changes the page and may throw.
pub mod Calls
use simply_transport.Common.{ℕ, ◌+◌, ◌-◌, Text, units, Bool, true, false, not, if◌then◌else◌}
use simply_transport.Shared.Icons.{Image, Images}

-- What comes of a callback: it returns, or it throws after changing the page.
pub data Outcome (S : Type 0) : Type 0 where
  returned threw : S → Outcome S

-- How `getContext`, `drawImage` and `getImageData` go.
pub data Drawing : Type 0 where
  no_context fails drawn : Drawing

-- How the second attempt goes, over `fetch`.
pub data Fetched : Type 0 where
  missing : Fetched  -- `global.fetch` is not there
  refused : Fetched  -- the request, its status or its body fails
  image_loads : Drawing → Fetched
  image_errors : Fetched

-- How the image's own loading goes.
pub data Browser : Type 0 where
  loads : Drawing → Browser
  errors : Fetched → Browser

-- The map's images, the object URLs that are not revoked, and the rest of the page.
pub record Page (M W : Type 0) : Type 0 where
  pub map : M
  pub urls : ℕ
  pub rest : W

module _ {S : Type 0} (callback : Bool → S → Outcome S) where
  -- The `catch` calls once more, also where the callback itself threw.
  unfoldable pub recover : Outcome S → Outcome S
  recover (returned s) = returned s
  recover (threw s) = callback false s

  -- The callback's argument tells whether there is image data.
  unfoldable pub draw_image_to_marker_image_data : Drawing → S → Outcome S
  unfolding recover
  draw_image_to_marker_image_data no_context s = recover (callback false s)
  draw_image_to_marker_image_data fails s = callback false s
  draw_image_to_marker_image_data drawn s = recover (callback true s)

module _ {M W : Type 0} (callback : Bool → Page M W → Outcome (Page M W)) where
  -- `URL.revokeObjectURL(objectUrl); callback(data)`
  unfoldable pub revoke_and_call : Bool → Page M W → Outcome (Page M W)
  revoke_and_call has_data p = callback has_data (record p { urls = p.urls - 1 })

  unfoldable pub on_error : Fetched → Page M W → Outcome (Page M W)
  unfolding revoke_and_call
  on_error missing p = callback false p
  on_error refused p = callback false p
  on_error (image_loads d) p =
      draw_image_to_marker_image_data revoke_and_call d (record p { urls = p.urls + 1 })
  on_error image_errors p = revoke_and_call false (record p { urls = p.urls + 1 })

  unfoldable pub rasterize_mono_marker_for_map : Browser → Page M W → Outcome (Page M W)
  unfolding on_error
  rasterize_mono_marker_for_map (loads d) p = draw_image_to_marker_image_data callback d p
  rasterize_mono_marker_for_map (errors f) p = on_error f p

abbrev pub mono_marker_image_id : Text
mono_marker_image_id = units "mono-marker"

-- `marker`: the data that the drawing gives.
module _ (lib : Images) (marker : Image) {W : Type 0}
    (on_done : Bool → Page lib.Map W → Outcome (Page lib.Map W)) where
  open lib use {Map, has_image, add_image}

  -- The callback that `loadMonoMarkerImage` hands on.
  unfoldable pub on_data : Bool → Page Map W → Outcome (Page Map W)
  on_data has_data p =
      if not has_data
      then on_done false p
      else on_done true (
          if not (has_image p.map mono_marker_image_id)
          then record p { map = add_image p.map mono_marker_image_id marker }
          else p)

  unfoldable pub load_mono_marker_image : Browser → Page Map W → Outcome (Page Map W)
  unfolding on_data
  load_mono_marker_image browser p =
      if has_image p.map mono_marker_image_id
      then on_done true p
      else rasterize_mono_marker_for_map on_data browser p
