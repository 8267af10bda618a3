-- ===== src/Panel/Button.antt =====
-- The button of a panel, which shows or hides all its layers: what a panel offers after some clicks.
use simply_transport.Common.{◌≡◌, refl, Text, units, Bool, true, false, List, [], ◌∷◌, All}
use simply_transport.Panel.Route.{toggle_text}
use simply_transport.Panel.Rows.{set_boxes}

-- What the button says where its last click, or the start, has shown all, and where it has hidden all.
abbrev pub label : Bool → Text
label true = units "Toggle all off"
label false = units "Toggle all on"

pub set_boxes-All : (bs : List Bool) (v w : Bool) → v ≡ w → All (λ b. b ≡ w) (set_boxes bs v)
unfolding set_boxes
set_boxes-All [] v w e = tt
set_boxes-All (b ∷ bs) v w e = (e, set_boxes-All bs v w e)

pub toggle_text-label : (on : Bool) → toggle_text on ≡ label on
unfolding toggle_text
toggle_text-label true = refl
toggle_text-label false = refl
