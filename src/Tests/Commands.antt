-- ===== src/Tests/Commands.antt =====
-- The commands on windows, the keyboard layouts and the message of a title.
use kum_de.Base.{
  ℕ, ◌+◌, ◌%◌, ◌≤◌, ◌<◌, ◌≡◌, refl, Bool, true, false, List, [], ◌∷◌, none, some, length, arith,
}
use kum_de.Base.Int.{pos}
use kum_de.Actions.{least_recent}
use kum_de.Actions.CycleFocus.{SomeAt, NoneBelow, least_recent-none}
use kum_de.Arrange.{is_tiled}
use kum_de.Base.Int.{◌+ℤ◌}
use kum_de.Arrange.{tile_box}
use kum_de.Arrange.Tiles.{tile_box-gaps}
use kum_de.Rules.Load.{parse_rule}
use kum_de.Rules.Load.Position.{parse_rule-y}
use kum_de.Server.{Box}
use kum_de.OutputConfig.{OutputEntry, apply_entries, apply_output-enabled}
use kum_de.Focus.{escaped_title}
use kum_de.Ipc.Title.{title_message, title_line, title_message-sent}
use kum_de.KbLayout.Cycle.{presses, presses-layout_current}
use kum_de.LockClient.{
  Client, Pressed, typed, return_key, escape, Quiet, Asks, handle_keys, handle_keys-Asks,
  handle_keys-twice,
}
use kum_de.Server.{Server, Output, tile, workspace_at, output_for_workspace}
use kum_de.Text.{Bytes, codes, bytes_eq}
use kum_de.Tiling.{kum_tiling_swap_master, swap_for, arrange_if_shown, relinked}
use kum_de.Tiling.Master.{master_of, kum_tiling_swap_master-master}
use kum_de.Workspace.{kum_workspace_switch, kum_workspace_move_toplevel}
use kum_de.Workspace.Nodes.{node_of}
use kum_de.Workspace.Hidden.{kum_workspace_switch-moved}
use kum_de.Tests.Sample.{thousandths, screen, start, window_of}

abbrev left : Output
left = record {
  id = 1;
  name = codes "DP-1";
  usable_area = screen;
  active_workspace = 0;
  previous_workspace = 0;
}

-- Windows 10 and 11 are tiled on workspace 0, with the focus on 11.
abbrev two_windows : Server thousandths
two_windows = record start {
  outputs = left ∷ [];
  toplevels =
      record (window_of 11) { focus_serial = 2 } ∷ record (window_of 10) { focus_serial = 1 } ∷ [];
  workspaces = record { layout = tile; toplevels = 10 ∷ 11 ∷ []; enabled = true } ∷ [];
  focused = some 11;
}

-- The server after the swap.
abbrev swapped_windows : Server thousandths
swapped_windows = arrange_if_shown 0 (relinked 11 0 two_windows)

kum_tiling_swap_master-master_example : master_of 0 swapped_windows ≡ some 10
unfolding is_tiled workspace_at kum_tiling_swap_master swap_for
kum_tiling_swap_master-master_example =
    kum_tiling_swap_master-master two_windows {u = swapped_windows} refl refl (omega arith) refl

kum_workspace_switch-moved_example :
    node_of
      (kum_workspace_switch
        (some left)
        (pos 3)
        (kum_workspace_move_toplevel 10 (pos 3) two_windows)).toplevels
      10
    ≡ false
unfolding output_for_workspace
kum_workspace_switch-moved_example =
    kum_workspace_switch-moved left 10 3 two_windows (omega arith) (omega arith) refl

least_recent-none_example :
    (n : ℕ) × SomeAt 10 n two_windows.toplevels × NoneBelow n two_windows.toplevels
unfolding least_recent
least_recent-none_example = least_recent-none 1000 two_windows.toplevels refl

presses-layout_current_example :
    (presses (codes "us,rs") 3 two_windows).layout_current ≡ (0 + 3) % 2
presses-layout_current_example =
    presses-layout_current (codes "us,rs") 3 two_windows (omega arith) (omega arith)

title_message-sent_example :
    (length (codes "DP-1") ≤ 2
      → title_message (codes "DP-1") (codes "shell")
        ≡ some (title_line (codes "DP-1") (escaped_title (codes "shell"))))
    × (length (codes "DP-1") + length (escaped_title (codes "shell")) ≤ 351
        → title_message (codes "DP-1") (codes "shell")
          ≡ some (title_line (codes "DP-1") (escaped_title (codes "shell"))))
    × (352 < length (codes "DP-1") + length (escaped_title (codes "shell"))
        → title_message (codes "DP-1") (codes "shell") ≡ none)
title_message-sent_example = title_message-sent (codes "DP-1") (codes "shell")

abbrev accepts : Bytes → Bool
accepts text = bytes_eq text (codes "pw")

abbrev waiting_client : Client
waiting_client = record {
  input = codes "pw";
  error = false;
  lock = true;
  running = true;
  unlocks = 0;
}

waiting_client-Quiet : Quiet accepts waiting_client
waiting_client-Quiet = record { room = omega arith; lock = refl; unlocks = refl }

abbrev password : List Pressed
password = escape ∷ typed 1 (codes "p       ") ∷ typed 1 (codes "w       ") ∷ return_key ∷ []

handle_keys-Asks_example : Asks accepts password waiting_client
handle_keys-Asks_example =
    handle_keys-Asks accepts password waiting_client (tt, (omega arith, (omega arith, (tt, tt))))
      waiting_client-Quiet

handle_keys-twice_example : handle_keys accepts (return_key ∷ return_key ∷ []) waiting_client ≡ none
unfolding bytes_eq
handle_keys-twice_example = handle_keys-twice accepts waiting_client refl refl

tile_box-gaps_example :
    let master : Box = tile_box thousandths 550 (pos 8) screen 3 0 in
    let this : Box = tile_box thousandths 550 (pos 8) screen 3 1 in
    let next : Box = tile_box thousandths 550 (pos 8) screen 3 2 in
    (master.x +ℤ master.width +ℤ pos 8 ≡ this.x)
    × (this.x +ℤ this.width +ℤ pos 8 ≡ screen.x +ℤ screen.width)
    × (this.y +ℤ this.height +ℤ pos 8 ≡ next.y)
tile_box-gaps_example = tile_box-gaps thousandths 550 (pos 8) screen 3 0

abbrev sample_entry : OutputEntry Bytes (λ v. v) (λ v. true) []
sample_entry = record {
  width = pos 0;
  height = pos 0;
  refresh = pos 0;
  x = pos 0;
  y = pos 0;
  scale = [];
  transform = [];
  enabled = true;
}

parse_rule-y_example : (parse_rule (codes "app_id:foot,pos:100,200")).y ≡ pos 0
parse_rule-y_example = parse_rule-y (codes "app_id:foot,pos:100,200")

apply_output-enabled_example :
    (apply_entries Bytes
      (λ v. v)
      (λ v. true)
      []
      ((codes "enabled", codes "false") ∷ (codes "pos", codes "0,0") ∷ [])
      sample_entry).enabled
    ≡ true
unfolding bytes_eq
apply_output-enabled_example =
    apply_output-enabled Bytes (λ v. v) (λ v. true) [] (codes "pos") (codes "0,0") sample_entry refl
