-- ===== src/Tests/Msg.antt =====
-- A command line of kumde-msg.
use kum_de.Base.{◌≡◌, [], ◌∷◌, some}
use kum_de.Base.Int.{pos, ◌-ℤ◌}
use kum_de.Ipc.{command_workspace, command_move_to, handle_client_readable}
use kum_de.Msg.{command_message}
use kum_de.Msg.Commands.{reply, command_message-index}
use kum_de.Tests.Sample.{start}
use kum_de.Text.{Bytes, codes, atoi}

command_message-index_example :
    ((msg : Bytes) × (command_message (codes "workspace") (codes "12" ∷ []) ≡ some msg)
      × (handle_client_readable msg start
          ≡ reply (command_workspace (atoi (codes "12") -ℤ pos 1) start)))
    × ((msg : Bytes) × (command_message (codes "move-to") (codes "12" ∷ []) ≡ some msg)
        × (handle_client_readable msg start
            ≡ reply (command_move_to (atoi (codes "12") -ℤ pos 1) start)))
command_message-index_example = command_message-index (codes "12") start
