-- ===== src/Tests/Bar.antt =====
-- The bar on two outputs.
use kum_de.Base.{ℕ, zero, suc, ◌≡◌, refl, Bool, true, false, List, [], ◌∷◌, ◌++◌, some, arith, All}
use kum_de.Base.Int.{pos}
use kum_de.Bar.{
  BarOutput, Bar, Link, bytes, again, kumbar_ipc_connect, cut_lines, handle_ipc_message, ptr_button,
  render_workspaces,
}
use kum_de.Bar.Boxes.{ptr_button-switch}
use kum_de.Bar.Initial.{Sent}
use kum_de.Bar.Initial.Restart.{outage, dispatches-ipc_send_initial_state}
use kum_de.Bar.Initial.Shown.{shown, dispatch_all-ipc_send_initial_state}
use kum_de.Bar.Messages.{handle_ipc_message-title}
use kum_de.Bar.Stream.{dispatch_all, dispatches, dispatches-full}
use kum_de.Ipc.{ok, handle_client_readable}
use kum_de.Ipc.Message.{
  ipc_send_initial_state, workspace_message, occupancy_message, print_ws, print_flags,
}
use kum_de.Server.{Output, Server, kum_output_focused, workspace_count}
use kum_de.Tests.Sample.{thousandths, start, screen}
use kum_de.Text.{Bytes, codes, bytes_eq}
use kum_de.Toplevel.{occupied_from}
use kum_de.Workspace.{kum_workspace_switch}

abbrev no_windows : List Bool
no_windows = false ∷ false ∷ false ∷ false ∷ false ∷ false ∷ false ∷ false ∷ false ∷ []

abbrev bar_of : Bytes → BarOutput
bar_of name = record {
  name = name;
  active_ws = pos 0;
  occupied_ws = no_windows;
  focused_title = [];
  dirty = false;
  ws_boxes = [];
}

abbrev two_bars : Bar
two_bars = record { outputs = bar_of (codes "DP-1") ∷ bar_of (codes "DP-2") ∷ []; ipc_ibuf = [] }

abbrev pieces : List Bytes
pieces =
    codes "{\"event\":\"workspace\",\"output\":\"DP-1\",\"in"
    ∷ (codes "dex\":3}" ++ b'\n' ∷ codes "{")
    ∷ []

abbrev times : ℕ → Bytes
times zero = []
times (suc n) = b'x' ∷ times n

abbrev full_bar : Bar
full_bar = record two_bars { ipc_ibuf = times 511 }

abbrev stuck : Link
stuck = record { bar = full_bar; connected = true; last_attempt = 0 }

dispatches-full_example :
    dispatches ((7, true, bytes (codes "}")) ∷ (8, true, again) ∷ []) stuck ≡ stuck
unfolding cut_lines
dispatches-full_example =
    dispatches-full ((7, true, bytes (codes "}")) ∷ (8, true, again) ∷ []) stuck refl (omega arith)
      refl (refl, (refl, tt))

handle_ipc_message-title_example :
    handle_ipc_message
      (codes "{\"event\":\"window_title\",\"output\":\"DP-1\",\"title\":\"vi\"}")
      two_bars.outputs
    ≡ two_bars.outputs
handle_ipc_message-title_example =
    handle_ipc_message-title (codes "DP-1\",\"title\":\"vi\"}") two_bars.outputs

abbrev display : Output
display = record {
  id = 1;
  name = codes "DP-1";
  usable_area = screen;
  active_workspace = 3;
  previous_workspace = 0;
}

abbrev one_display : Server thousandths
one_display = record start { outputs = display ∷ [] }

-- The first line with a part of the second one, and the rest.
abbrev two_pieces : List Bytes
two_pieces =
    (codes "{\"event\":\"workspace\",\"output\":\"DP-1\",\"index\":3}"
      ++ b'\n' ∷ codes "{\"event\"")
    ∷ (codes ":\"occupancy\",\"ws\":[0,0,0,0,0,0,0,0,0]}" ++ b'\n' ∷ [])
    ∷ []

one_display-Sent : All Sent one_display.outputs
one_display-Sent = (
  (
    (
      omega arith,
      omega arith,
      (
        (omega arith, omega arith),
        (
          (omega arith, omega arith),
          ((omega arith, omega arith), ((omega arith, omega arith), tt)),
        ),
      ),
    ),
    omega arith,
  ),
  tt,
)

dispatch_all-ipc_send_initial_state_example :
    (shown (codes "DP-1") (dispatch_all two_pieces (kumbar_ipc_connect two_bars)).outputs
      ≡ some (pos 3))
    × All
        (λ b. b.occupied_ws ≡ occupied_from one_display.toplevels workspace_count 0)
        (dispatch_all two_pieces (kumbar_ipc_connect two_bars)).outputs
unfolding bytes_eq cut_lines ipc_send_initial_state workspace_message occupancy_message print_ws
    print_flags occupied_from
dispatch_all-ipc_send_initial_state_example =
    dispatch_all-ipc_send_initial_state one_display two_bars 0 display two_pieces refl
      (omega arith, (omega arith, tt)) one_display-Sent (tt, tt) (refl, (refl, tt)) refl refl

dispatches-ipc_send_initial_state_example :
    (shown (codes "DP-1") (dispatches (outage 10 14 true again two_pieces) stuck).bar.outputs
      ≡ some (pos 3))
    × All
        (λ b. b.occupied_ws ≡ occupied_from one_display.toplevels workspace_count 0)
        (dispatches (outage 10 14 true again two_pieces) stuck).bar.outputs
unfolding bytes_eq cut_lines ipc_send_initial_state workspace_message occupancy_message print_ws
    print_flags occupied_from
dispatches-ipc_send_initial_state_example =
    dispatches-ipc_send_initial_state one_display stuck 0 display two_pieces 10 14 true again refl
      (omega arith) refl (omega arith, (omega arith, tt)) one_display-Sent (tt, tt)
      (refl, (refl, tt)) refl refl

abbrev shown_bar : BarOutput
shown_bar = record (bar_of (codes "DP-1")) {
  occupied_ws = false ∷ true ∷ false ∷ false ∷ false ∷ false ∷ false ∷ false ∷ false ∷ [];
}

-- The second button is at 34.
ptr_button-switch_example :
    (msg : Bytes) × (ptr_button (pos 9000) (render_workspaces shown_bar) ≡ some msg)
    × (handle_client_readable msg one_display
        ≡ (kum_workspace_switch (kum_output_focused one_display) (pos 1) one_display, ok ∷ []))
ptr_button-switch_example =
    ptr_button-switch shown_bar 1 9000 true one_display refl refl refl (omega arith) (omega arith)
