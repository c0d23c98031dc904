-- ===== src/Tests/Lock.antt =====
-- The session lock at two outputs.
use kum_de.Base.{◌≡◌, refl, ◌⊎◌, true}
use kum_de.Focus.{kum_focus_toplevel}
use kum_de.Frame.{no_window}
use kum_de.Output.{kum_new_output}
use kum_de.Server.{Server, set_workspace_enabled}
use kum_de.SessionLock.{new_session_lock, active_lock_destroy, active_lock_unlock, finished}
use kum_de.Locked.{Step-locked, Reach-no_window, Reach-refused, is_unlock}
use kum_de.Visible.Reach.{here, after, lock_asked, window_focused, lock_gone}
use kum_de.Tests.Sample.{thousandths, screen, two_outputs, setting}

abbrev locked_server : Server thousandths
locked_server = (new_session_lock (λ o. screen) 7 two_outputs).0

Step-locked_example :
    ((active_lock_destroy locked_server).locked ≡ true)
    ⊎ ((is_unlock {g = setting} (lock_gone {s = locked_server}) ≡ true)
        × (active_lock_destroy locked_server ≡ active_lock_unlock locked_server))
unfolding new_session_lock active_lock_destroy active_lock_unlock kum_new_output
    set_workspace_enabled
Step-locked_example = Step-locked setting {s = locked_server} lock_gone refl

Reach-no_window_example : no_window (kum_focus_toplevel 3 locked_server).seat_focus ≡ true
unfolding new_session_lock kum_focus_toplevel kum_new_output set_workspace_enabled
Reach-no_window_example =
    Reach-no_window setting {s = two_outputs} refl
      (after (after here (lock_asked 7)) (window_focused 3)) refl

Reach-refused_example :
    new_session_lock (λ o. screen) 8 (active_lock_destroy locked_server)
    ≡ (active_lock_destroy locked_server, finished)
unfolding new_session_lock kum_new_output set_workspace_enabled active_lock_destroy is_unlock
Reach-refused_example =
    Reach-refused setting {s = locked_server} (after here lock_gone) (λ o. screen) 8 refl (refl, tt)
