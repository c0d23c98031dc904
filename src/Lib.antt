-- ===== src/Lib.antt =====
-- KumDE, a Wayland compositor on wlroots and its companion programs. The compositor keeps one
-- server: outputs that each show one of nine workspaces, windows linked into a workspace, layer
-- surfaces, a session lock, key bindings and an IPC socket. Over the socket the bar and kumde-msg send
-- it commands, and it tells them of the changes; the launcher, the lock screen and the notifications
-- are clients of its Wayland display.
--
-- Server holds the state of include/kumde.h: pointers are identities, a `wl_list` is a list with its
-- head first, and what is handed to wlroots (positions, sizes, enabled trees, the keyboard focus)
-- is a field that holds the last value. Each operation has the name of its C function; a handler of
-- an event takes what the event carries, and answers `none` where the code would follow NULL or read
-- out of bounds.
--
-- The compositor: Workspace and Arrange model src/workspace.c, Focus and Toplevel src/toplevel.c,
-- Output src/output.c, Layer src/layer.c, SessionLock src/sessionlock.c, Tiling src/tiling.c and
-- src/focus.c, KbLayout src/kblayout.c, Keybind and Actions src/keybind.c, Input src/input.c, Rules
-- src/rules.c, Config and OutputConfig src/conf.c, Reload the reload of src/server.c, Ipc src/ipc.c,
-- and Json src/jsonutil.c. Its clients: LockClient models kumlock/src/main.c, Launcher
-- kumlauncher/src/main.c, Bar kumbar/src/main.c, Notify kumnotify/src/main.c and Msg
-- tools/kumde-msg.c. Text has the functions of the C library that the programs call on strings. Frame
-- and Visible prove what the operations of the compositor keep, Locked what the session lock guards,
-- and Tests applies the theorems to concrete values.
--
-- Numbers: an `int` is an integer without bounds, save the focus serial, which wraps at 2 ^ 64, and
-- the number of a notification, which wraps at 2 ^ 32. Positions of the cursor over windows are whole
-- pixels; those in the launcher and the bar are the 1/256 of a pixel that the protocol has. `float` is
-- a parameter, as Floats and Reals, and so are `fnmatch`, PAM, the boxes of the output layout, what
-- the scene has under the cursor, and the text that the keyboard gives for a key. Nearly every loop is
-- over a list or a fixed range. Two count down: the digits of a number take the number itself as fuel,
-- which is enough since what is printed reads back, and the expiry of notifications has one turn for
-- each of the eight places.
--
-- Not modelled: the code under KUM_XWAYLAND (the model is the build without it), drawing, timers and
-- animations, with the node that `tick_animations` shows or hides while a window opens or closes,
-- process start and end, sockets and files (their bytes and lines are arguments), and wlroots itself.
pub mod Base
pub mod Text
pub mod Json
pub mod Server
pub mod Arrange
pub mod Focus
pub mod Workspace
pub mod Output
pub mod Rules
pub mod Toplevel
pub mod SessionLock
pub mod Layer
pub mod Tiling
pub mod KbLayout
pub mod Keybind
pub mod Actions
pub mod Frame
pub mod Input
pub mod Ipc
pub mod LockClient
pub mod OutputConfig
pub mod Config
pub mod Reload
pub mod Visible
pub mod Locked
pub mod Tests
pub mod Launcher
pub mod Notify
pub mod Msg
pub mod Bar
