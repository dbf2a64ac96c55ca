-- ===== src/Core/Imap.antt =====
-- serverwall-core/src/proto/imap.rs: commands and responses of IMAP.
use serverwall.Base.{
  [], ◌++◌, Option, none, some, Bool, if◌then◌else◌, is_empty, Text, codes, trim, split_once,
  starts_with, to_uppercase,
}

pub record ImapCommand : Type 0 where
  pub tag : Text
  pub command : Text
  pub args : Text

pub record ImapResponse : Type 0 where
  pub tag : Text
  pub status : Text
  pub text : Text

unfoldable pub tagged_ok : Text → Text → ImapResponse
tagged_ok tag text = record { tag = tag; status = codes "OK"; text = text }

unfoldable pub untagged : Text → ImapResponse
untagged text = record { tag = codes "*"; status = []; text = text }

unfoldable pub to_bytes : ImapResponse → Text
to_bytes r =
    if is_empty r.status
    then r.tag ++ (codes " " ++ (r.text ++ codes "\r\n"))
    else r.tag ++ (codes " " ++ (r.status ++ (codes " " ++ (r.text ++ codes "\r\n"))))

-- The command after the tag, and what follows the next blank.
command_of : Text → Text → Option (Text × Text) → ImapCommand
command_of tag rest none = record { tag = tag; command = to_uppercase rest; args = [] }
command_of tag rest (some (command, args)) = record {
  tag = tag;
  command = to_uppercase command;
  args = args;
}

tagged : Option (Text × Text) → Option ImapCommand
unfolding command_of
tagged none = none
tagged (some (tag, rest)) = some (command_of tag rest (split_once b' ' rest))

-- `parse_command`: `splitn(3, ' ')`.
unfoldable pub parse_imap : Text → Option ImapCommand
unfolding tagged
parse_imap line = tagged (split_once b' ' (trim line))

unfoldable pub is_capability_line : Text → Bool
is_capability_line line = starts_with (codes "* CAPABILITY") (trim line)

unfoldable pub build_id_command : Text → Text → Text
build_id_command tag proxy_name =
    tag ++ (codes " ID (\"name\" \"" ++ (proxy_name ++ codes "\")\r\n"))
