-- ===== src/Collectors/Commands.antt =====
-- `command_allowed` and `allow_stored_password_auth` of homeinfra/collectors.py.
use homeinfra_control_center.Prelude.{
  ℕ, Bool, true, ◌&&◌, ◌||◌, not, Option, none, some, List, [], ◌∷◌, Text, txt, strip, lower,
  is_space, is_empty, contains, any, mem, leb, nat_eq,
}
use homeinfra_control_center.Ids.{is_digit}

unfoldable pub allow_stored_password_auth : Option Text → Bool
unfolding strip lower
allow_stored_password_auth none = true
allow_stored_password_auth (some raw) =
    mem (lower (strip raw)) (txt "1" ∷ txt "true" ∷ txt "yes" ∷ txt "on" ∷ [])

abbrev pub banned_command_tokens : List Text
banned_command_tokens =
    txt "rm "
    ∷ txt "dd "
    ∷ txt "mkfs"
    ∷ txt "reboot"
    ∷ txt "shutdown"
    ∷ txt "iptables "
    ∷ txt "poweroff"
    ∷ txt "systemctl stop"
    ∷ txt "systemctl restart"
    ∷ txt "systemctl kill"
    ∷ txt "halt"
    ∷ txt "init 0"
    ∷ txt "init 6"
    ∷ txt "kill "
    ∷ txt "pkill "
    ∷ txt "killall "
    ∷ txt "chmod "
    ∷ txt "chown "
    ∷ txt "mount "
    ∷ txt "umount "
    ∷ txt "fdisk"
    ∷ txt "parted"
    ∷ txt "> "
    ∷ txt ">>"
    ∷ txt "| sh"
    ∷ txt "$("
    ∷ txt "`"
    ∷ []

-- A character of `COMMAND_VALIDATION_PATTERN`.
unfoldable pub is_command_char : ℕ → Bool
unfolding is_digit is_space
is_command_char c =
    leb b'a' c && leb c b'z'
    || leb b'A' c && leb c b'Z'
    || is_digit c
    || is_space c
    || any (λ d. nat_eq c d) (txt "/_.-%;:=,&'\"[]*?><|$")

unfoldable pub command_allowed : Text → Bool
unfolding strip lower contains is_command_char
command_allowed command =
    let normalized = strip command in
    not (is_empty normalized)
    && not (any (λ c. not (is_command_char c)) normalized)
    && not (any (λ token. contains token (lower normalized)) banned_command_tokens)
