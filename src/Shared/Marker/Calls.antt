-- ===== src/Shared/Marker/Calls.antt =====
-- How often `onDone` is called, and what it is told.
use mathlib.Core.Path.{subst}
use simply_transport.Common.{
  ◌+◌, ◌-◌, ◌≡◌, refl, sym, ◌∙◌, ap, List, ◌∷◌, ◌&&◌, if◌then◌else◌, Bool, true, false, text_eq_iff,
  arith, Bool-cases, inl, inr,
}
use simply_transport.Shared.Icons.{Image, Images, is_some}
use simply_transport.Shared.Marker.{
  Outcome, returned, threw, Drawing, no_context, fails, drawn, missing, refused, image_loads,
  image_errors, Browser, loads, errors, Page, recover, draw_image_to_marker_image_data,
  revoke_and_call, on_error, rasterize_mono_marker_for_map, mono_marker_image_id, on_data,
  load_mono_marker_image,
}

-- The callback always returns.
abbrev pub Returns : {S : Type 0} → (Bool → S → Outcome S) → Type 0
Returns {S} callback = (b : Bool) (s : S) → (t : S) × (callback b s ≡ returned t)

-- Whether a drawing gives image data.
abbrev gives_data : Drawing → Bool
gives_data drawn = true
gives_data _ = false

module _ {S : Type 0} (callback : Bool → S → Outcome S) (safe : Returns callback) where
  recover_returns : (b : Bool) (s : S) → recover callback (callback b s) ≡ callback b s
  unfolding recover
  recover_returns b s = let (t, e) = safe b s in rw e refl

  draw_once :
      (d : Drawing) (s : S)
      → draw_image_to_marker_image_data callback d s ≡ callback (gives_data d) s
  draw_once no_context s = unfold draw_image_to_marker_image_data in recover_returns false s
  draw_once fails s = unfold draw_image_to_marker_image_data in refl
  draw_once drawn s = unfold draw_image_to_marker_image_data in recover_returns true s

module _ (lib : Images) (marker : Image) {W : Type 0}
    (on_done : Bool → Page lib.Map W → Outcome (Page lib.Map W)) where
  open lib use {Map, has_image, add_image, image, has_image_lem, image-add_image}

  -- One call of `onDone`, on a page with its object URLs revoked; the argument tells whether the image
  -- is registered.
  pub record CalledOnce (p : Page Map W) (o : Outcome (Page Map W)) : Type 0 where
    pub ok : Bool
    pub at : Page Map W
    pub call : o ≡ on_done ok at
    pub truth : has_image at.map mono_marker_image_id ≡ ok
    pub revoked : at.urls ≡ p.urls
    pub same_rest : at.rest ≡ p.rest

  has_image-added :
      (m : Map)
      → has_image m mono_marker_image_id ≡ false
      → has_image (add_image m mono_marker_image_id marker) mono_marker_image_id ≡ true
  has_image-added m h =
      let id = mono_marker_image_id in
      let e = image-add_image m id marker id h in
      let same = (text_eq_iff id id).1 refl in
      has_image_lem (add_image m id marker) id ∙ ap is_some (rw same at e)

  on_data-CalledOnce :
      (b : Bool) (p : Page Map W)
      → has_image p.map mono_marker_image_id ≡ false
      → CalledOnce p (on_data lib marker on_done b p)
  unfolding on_data
  on_data-CalledOnce false p h = record {
    ok = false;
    at = p;
    call = refl;
    truth = h;
    revoked = refl;
    same_rest = refl;
  }
  on_data-CalledOnce true p h = record {
    ok = true;
    at = record p { map = add_image p.map mono_marker_image_id marker };
    call = rw h refl;
    truth = has_image-added p.map h;
    revoked = refl;
    same_rest = refl;
  }

  on_data-Returns : Returns on_done → Returns (on_data lib marker on_done)
  unfolding on_data
  on_data-Returns safe false p = safe false p
  on_data-Returns safe true p = safe true _

  -- After a URL was made and revoked.
  revoke-CalledOnce :
      (b : Bool) (p : Page Map W)
      → has_image p.map mono_marker_image_id ≡ false
      → CalledOnce p
          (revoke_and_call (on_data lib marker on_done) b (record p { urls = p.urls + 1 }))
  unfolding revoke_and_call
  revoke-CalledOnce b p h =
      let c = on_data-CalledOnce b (record p { urls = p.urls + 1 - 1 }) h in
      record {
        ok = c.ok;
        at = c.at;
        call = c.call;
        truth = c.truth;
        revoked = omega (arith, c.revoked);
        same_rest = c.same_rest;
      }

  revoke-Returns : Returns on_done → Returns (revoke_and_call (on_data lib marker on_done))
  unfolding revoke_and_call
  revoke-Returns safe b p = on_data-Returns safe b (record p { urls = p.urls - 1 })

  rasterize-CalledOnce :
      (browser : Browser) (p : Page Map W)
      → Returns on_done
      → has_image p.map mono_marker_image_id ≡ false
      → CalledOnce p (rasterize_mono_marker_for_map (on_data lib marker on_done) browser p)
  unfolding rasterize_mono_marker_for_map
  rasterize-CalledOnce (loads d) p safe h =
      subst (CalledOnce p) (sym (draw_once _ (on_data-Returns safe) d p))
        (on_data-CalledOnce (gives_data d) p h)
  rasterize-CalledOnce (errors missing) p safe h = on_data-CalledOnce false p h
  rasterize-CalledOnce (errors refused) p safe h = on_data-CalledOnce false p h
  rasterize-CalledOnce (errors (image_loads d)) p safe h =
      subst (CalledOnce p)
        (sym (draw_once _ (revoke-Returns safe) d (record p { urls = p.urls + 1 })))
        (revoke-CalledOnce (gives_data d) p h)
  rasterize-CalledOnce (errors image_errors) p safe h = revoke-CalledOnce false p h

-- If `onDone` never throws, `loadMonoMarkerImage` calls it exactly once, however the browser answers; the
-- argument tells whether the map has the marker then, every object URL made is revoked, and the rest of
-- the page is as it was.
pub marker-CalledOnce :
    (lib : Images) (marker : Image) {W : Type 0}
    (on_done : Bool → Page lib.Map W → Outcome (Page lib.Map W)) (browser : Browser)
    (p : Page lib.Map W)
    → Returns on_done
    → CalledOnce lib marker on_done p (load_mono_marker_image lib marker on_done browser p)
unfolding load_mono_marker_image
marker-CalledOnce lib marker on_done browser p safe =
    elim (Bool-cases (lib.has_image p.map mono_marker_image_id)) [
      | inl there ↦ record {
        ok = true;
        at = p;
        call = rw there refl;
        truth = there;
        revoked = refl;
        same_rest = refl;
      }
      | inr absent ↦ rw absent (rasterize-CalledOnce lib marker on_done browser p safe absent)
    ]

-- An `onDone` that notes what it is told, last first, and throws where `throws` says so of its notes.
unfoldable pub noting :
    {M : Type 0} → (List Bool → Bool) → Bool → Page M (List Bool) → Outcome (Page M (List Bool))
noting throws ok p =
    let q = record p { rest = ok ∷ p.rest } in if throws (ok ∷ p.rest) then threw q else returned q

abbrev pub page_of : {S : Type 0} → Outcome S → S
page_of (returned s) = s
page_of (threw s) = s

-- Whether the marker is drawn, over its own loading or over `fetch`.
abbrev pub draws : Browser → Bool
draws (loads drawn) = true
draws (errors (image_loads drawn)) = true
draws _ = false

-- Whether the first call is made where the drawing's `catch` sees what it throws.
abbrev pub guarded : Browser → Bool
guarded (loads fails) = false
guarded (loads d) = true
guarded (errors (image_loads fails)) = false
guarded (errors (image_loads d)) = true
guarded _ = false

-- The notes in the end, from those before.
abbrev pub told : (List Bool → Bool) → Bool → Browser → List Bool → List Bool
told throws there browser notes =
    if there
    then true ∷ notes
    else if guarded browser && throws (draws browser ∷ notes)
    then false ∷ draws browser ∷ notes
    else draws browser ∷ notes

-- What an `onDone` that notes its calls and may throw at any of them is told, whatever the browser answers: once of
-- success, where the map has the marker already; else once, of success exactly if the marker is drawn over its own
-- loading or over `fetch`; and where that call throws and was made inside the drawing's `try`, a second time, of
-- failure. A throw outside of it, and one of the second call, lead to no further call.
pub marker_told :
    (lib : Images) (marker : Image) (throws : List Bool → Bool) (browser : Browser)
    (p : Page lib.Map (List Bool))
    → (page_of (load_mono_marker_image lib marker (noting throws) browser p)).rest
      ≡ told throws (lib.has_image p.map mono_marker_image_id) browser p.rest
unfolding load_mono_marker_image rasterize_mono_marker_for_map draw_image_to_marker_image_data
    on_data on_error revoke_and_call recover noting
marker_told lib marker throws (loads no_context) p = ground arith
marker_told lib marker throws (loads fails) p = ground arith
marker_told lib marker throws (loads drawn) p = ground arith
marker_told lib marker throws (errors missing) p = ground arith
marker_told lib marker throws (errors refused) p = ground arith
marker_told lib marker throws (errors (image_loads no_context)) p = ground arith
marker_told lib marker throws (errors (image_loads fails)) p = ground arith
marker_told lib marker throws (errors (image_loads drawn)) p = ground arith
marker_told lib marker throws (errors image_errors) p = ground arith
