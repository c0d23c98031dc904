-- ===== src/Msg/Commands.antt =====
-- The commands of tools/kumde-msg.c, as src/ipc.c reads them.
use mathlib.Core.List.{append_assoc, append-nil}
use kum_de.Base.{
  ℕ, ◌≡◌, refl, sym, ap, ◌∙◌, Bool, true, false, List, [], ◌∷◌, ◌++◌, Option, none, some, ◌==◌,
  if◌then◌else◌, arith, All, any,
}
use kum_de.Base.Int.{ℤ, pos, negsuc, ◌-ℤ◌}
use kum_de.Ipc.{
  Answer, Outcome, ipc_handle_command, handle_lines, handle_client_readable, scan_string,
  scan_index, command_workspace, command_move_to,
}
use kum_de.Msg.{print_int, index_message, command_message, workspace_prefix, move_prefix}
use kum_de.Msg.Decimal.{scan_int-print_int, print_int-append, print_int-line}
use kum_de.Server.{Floats, Server}
use kum_de.Text.{
  NoLineFeed, lacks, lead, Bytes, codes, bytes_eq, after, scan_until, tokens, cons_token, atoi,
}

tokens-line :
    (piece line : Bytes)
    → All NoLineFeed line
    → tokens b'\n' piece (line ++ b'\n' ∷ []) ≡ cons_token (piece ++ line) []
unfolding tokens cons_token
tokens-line piece [] a = ap (λ p. cons_token p []) (sym (append-nil piece))
tokens-line piece (c ∷ line) a =
    go (c == b'\n') (ground arith) (tokens-line (piece ++ c ∷ []) line a.1)
  where
    go :
        (b : Bool)
        → b ≡ false
        → tokens b'\n' (piece ++ c ∷ []) (line ++ b'\n' ∷ [])
          ≡ cons_token ((piece ++ c ∷ []) ++ line) []
        → (if b
            then cons_token piece (tokens b'\n' [] (line ++ b'\n' ∷ []))
            else tokens b'\n' (piece ++ c ∷ []) (line ++ b'\n' ∷ []))
          ≡ cons_token (piece ++ c ∷ line) []
    go true e rest = absurd (cc)
    go false e rest = rest ∙ ap (λ p. cons_token p []) (append_assoc piece (c ∷ []) line)

-- The line of a command with an index.
abbrev index_line : Bytes → ℤ → Bytes
index_line prefix z = prefix ++ print_int z (codes "}")

-- The number that a scan found, else -1.
abbrev found : Option ℤ → ℤ
found none = negsuc 0
found (some i) = i

index_message-line :
    (prefix arg : Bytes)
    → index_message prefix arg ≡ index_line prefix (atoi arg -ℤ pos 1) ++ b'\n' ∷ []
unfolding index_message
index_message-line prefix arg =
    let z = atoi arg -ℤ pos 1 in
    ap (λ r. prefix ++ r) (print_int-append z (codes "}") (b'\n' ∷ []))
    ∙ sym (append_assoc prefix (print_int z (codes "}")) (b'\n' ∷ []))

index_line-line :
    (prefix : Bytes) (z : ℤ)
    → any (λ c. c == b'\n') prefix ≡ false
    → All NoLineFeed (index_line prefix z)
index_line-line prefix z h = lead prefix _ h (print_int-line z (codes "}") (lacks (codes "}") refl))

module _ {F : Floats} where
  abbrev pub reply : Outcome F → Server F × List Answer
  reply o = (o.server, o.answer ∷ [])

  one_command :
      (c : ℕ) (line : Bytes) (s : Server F)
      → All NoLineFeed (c ∷ line)
      → handle_client_readable ((c ∷ line) ++ b'\n' ∷ []) s
        ≡ reply (ipc_handle_command (c ∷ line) s)
  unfolding handle_client_readable handle_lines cons_token
  one_command c line s a = ap (λ ls. handle_lines ls s) (tokens-line [] (c ∷ line) a)

  command_workspace-line :
      (z : ℤ) (s : Server F)
      → ipc_handle_command (index_line workspace_prefix z) s ≡ command_workspace z s
  unfolding ipc_handle_command scan_string scan_index bytes_eq after scan_until
  command_workspace-line z s =
      ap (λ o. command_workspace (found o) s) (scan_int-print_int z b'}' [] refl)

  command_move_to-line :
      (z : ℤ) (s : Server F) → ipc_handle_command (index_line move_prefix z) s ≡ command_move_to z s
  unfolding ipc_handle_command scan_string scan_index bytes_eq after scan_until
  command_move_to-line z s =
      ap (λ o. command_move_to (found o) s) (scan_int-print_int z b'}' [] refl)

  -- `kumde-msg workspace ARG` and `kumde-msg move-to ARG` print one message, and the compositor that
  -- receives it runs its command once, at the number that `atoi` finds in ARG less one, whatever that
  -- number is, and answers once.
  pub command_message-index :
      (arg : Bytes) (s : Server F)
      → ((msg : Bytes) × (command_message (codes "workspace") (arg ∷ []) ≡ some msg)
          × (handle_client_readable msg s ≡ reply (command_workspace (atoi arg -ℤ pos 1) s)))
        × ((msg : Bytes) × (command_message (codes "move-to") (arg ∷ []) ≡ some msg)
            × (handle_client_readable msg s ≡ reply (command_move_to (atoi arg -ℤ pos 1) s)))
  unfolding command_message bytes_eq
  command_message-index arg s =
      let z = atoi arg -ℤ pos 1 in
      (
        (
          _,
          refl,
          ap (λ m. handle_client_readable m s) (index_message-line workspace_prefix arg)
              ∙ one_command _ _ s (index_line-line workspace_prefix z refl)
              ∙ ap reply (command_workspace-line z s),
        ),
        (
          _,
          refl,
          ap (λ m. handle_client_readable m s) (index_message-line move_prefix arg)
              ∙ one_command _ _ s (index_line-line move_prefix z refl)
              ∙ ap reply (command_move_to-line z s),
        ),
      )
