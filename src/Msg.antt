-- ===== src/Msg.antt =====
-- tools/kumde-msg.c: the message that a command line makes. The socket is not modelled.
pub mod Commands
pub mod Decimal
use kum_de.Base.{
  ℕ, zero, suc, ◌+◌, ◌-◌, ◌/◌, ◌%◌, Bool, true, false, not, ◌&&◌, List, [], ◌∷◌, ◌++◌, Option, none,
  some, length, take, leb, ltb, if◌then◌else◌,
}
use kum_de.Base.Int.{ℤ, pos, negsuc, ◌-ℤ◌}
use kum_de.Text.{Bytes, codes, bytes_eq, atoi, copied}

-- `%d` in front of a text: the digits of `n`, of which there are at most `fuel` and one more.
unfoldable pub emit : ℕ → ℕ → Bytes → Bytes
emit zero n out = (b'0' + n % 10) ∷ out
emit (suc fuel) n out =
    let more = emit fuel (n / 10) ((b'0' + n % 10) ∷ out) in
    if ltb n 10 then (b'0' + n) ∷ out else more

unfoldable pub print_int : ℤ → Bytes → Bytes
unfolding emit
print_int (pos n) out = emit n n out
print_int (negsuc n) out = b'-' ∷ emit (suc n) (suc n) out

-- The loop that joins the arguments of `launch`; `exec` has 400 bytes, and an argument that does not
-- fit is cut and ends the loop.
unfoldable pub join_loop : Bool → Bytes → List Bytes → Bytes
join_loop first exec [] = exec
join_loop first exec (arg ∷ args) =
    let piece = if first then arg else b' ' ∷ arg in
    let room = 400 - length exec in
    let rest = join_loop false (exec ++ piece) args in
    if leb room (length piece) then exec ++ take (room - 1) piece else rest

unfoldable pub launch_message : List Bytes → Bytes
unfolding join_loop
launch_message args =
    copied 511
      (codes "{\"cmd\":\"launch\",\"exec\":\"" ++ (join_loop true [] args ++ codes "\"}\n"))

-- An `int` has at most eleven bytes, so that nothing is cut here.
unfoldable pub index_message : Bytes → Bytes → Bytes
unfolding print_int
index_message prefix arg = prefix ++ print_int (atoi arg -ℤ pos 1) (codes "}\n")

abbrev pub workspace_prefix : Bytes
workspace_prefix = codes "{\"cmd\":\"workspace\",\"index\":"

abbrev pub move_prefix : Bytes
move_prefix = codes "{\"cmd\":\"move_to\",\"index\":"

-- `argv[2]`
abbrev pub first_of : List Bytes → Bytes
first_of [] = []
first_of (arg ∷ args) = arg

-- The chain of `strcmp`s of `main` over `argv[1]` and the arguments behind it, for the commands that
-- the compositor answers; `none` is an unknown command.
unfoldable pub command_message : Bytes → List Bytes → Option Bytes
unfolding launch_message index_message
command_message cmd args =
    if bytes_eq cmd (codes "launch") && leb 1 (length args)
    then some (launch_message args)
    else if bytes_eq cmd (codes "workspace") && leb 1 (length args)
    then some (index_message workspace_prefix (first_of args))
    else if bytes_eq cmd (codes "move-to") && leb 1 (length args)
    then some (index_message move_prefix (first_of args))
    else if bytes_eq cmd (codes "close")
    then some (codes "{\"cmd\":\"close\"}\n")
    else if bytes_eq cmd (codes "layout") && leb 1 (length args)
    then some
        (copied 511 (codes "{\"cmd\":\"layout\",\"mode\":\"" ++ (first_of args ++ codes "\"}\n")))
    else if bytes_eq cmd (codes "quit")
    then some (codes "{\"cmd\":\"quit\"}\n")
    else if bytes_eq cmd (codes "reload")
    then some (codes "{\"cmd\":\"reload\"}\n")
    else none
