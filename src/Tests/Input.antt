-- ===== src/Tests/Input.antt =====
-- The cursor over one window.
use kum_de.Base.{◌≡◌, refl, true, false, List, [], ◌∷◌, none, some}
use kum_de.Base.Int.{pos}
use kum_de.Input.{min_w, min_h, resized, btn_left, kum_cursor_button, release}
use kum_de.Input.Drag.{OppositeEdge, Motion, motions, resized-opposite, motions-released}
use kum_de.Server.{Server, Edges, Box}
use kum_de.Tests.Sample.{thousandths, start, small_box, window_of}

abbrev left_edge : Edges
left_edge = record { top = false; bottom = false; left = true; right = false }

resized-opposite_example :
    let b : Box = resized left_edge (pos 600) (pos 0) small_box in
    OppositeEdge left_edge.left min_w small_box.x small_box.width b.x b.width (pos 600)
    × OppositeEdge left_edge.top min_h small_box.y small_box.height b.y b.height (pos 0)
resized-opposite_example = resized-opposite left_edge (pos 600) (pos 0) small_box

abbrev held : Server thousandths
held = record start { toplevels = record (window_of 7) { grabbed = true } ∷ [] }

abbrev let_go : Server thousandths
let_go = record start { toplevels = record (window_of 7) { grabbed = false } ∷ [] }

abbrev wander : List Motion
wander = (pos 300, pos 200, some 1, some 7) ∷ (pos 20, pos 20, some 1, none) ∷ []

motions-released_example : (motions wander let_go).toplevels ≡ let_go.toplevels
unfolding kum_cursor_button release
motions-released_example = motions-released btn_left false (some 7) wander held {t = let_go} refl
