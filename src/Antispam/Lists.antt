-- ===== src/Antispam/Lists.antt =====
-- serverwall-antispam/src/lists: who bypasses the spam checks, and who is always rejected. A set of
-- texts is a list of them; an address is compared as it is printed, by the parameter `show_ip`.
use serverwall.Base.{
  Bool, false, ◌||◌, List, Option, none, some, map, Text, contains_text, to_lowercase, trim_end,
  after_last, ◌==◌,
}
use serverwall.Core.Types.{IpAddr}

pub record AllowList : Type 0 where
  pub ips : List Text
  pub senders : List Text
  pub sender_domains : List Text

pub record BlockList : Type 0 where
  pub ips : List Text
  pub senders : List Text
  pub sender_domains : List Text
  pub recipients : List Text

unfoldable pub allow_from_config : List Text → List Text → List Text → AllowList
allow_from_config ips senders sender_domains = record {
  ips = ips;
  senders = map to_lowercase senders;
  sender_domains = map to_lowercase sender_domains;
}

unfoldable pub block_from_config : List Text → List Text → List Text → List Text → BlockList
block_from_config ips senders sender_domains recipients = record {
  ips = ips;
  senders = map to_lowercase senders;
  sender_domains = map to_lowercase sender_domains;
  recipients = map to_lowercase recipients;
}

-- `rsplit_once('@')`, then the lower-case domain without a closing bracket.
in_domains : Option Text → List Text → Bool
in_domains none domains = false
in_domains (some domain) domains =
    contains_text domains (to_lowercase (trim_end (λ c. c == b'>') domain))

contains_domain : List Text → Text → Bool
unfolding in_domains
contains_domain domains sender = in_domains (after_last b'@' sender) domains

contains_sender : List Text → Text → Bool
contains_sender senders sender = contains_text senders (to_lowercase sender)

unfoldable pub contains_recipient : BlockList → Text → Bool
contains_recipient b addr = contains_text b.recipients (to_lowercase addr)

module _ (show_ip : IpAddr → Text) where
  unfoldable pub allow_matches : AllowList → IpAddr → Text → Bool
  unfolding contains_sender contains_domain
  allow_matches a ip sender =
      contains_text a.ips (show_ip ip)
      || (contains_sender a.senders sender || contains_domain a.sender_domains sender)

  unfoldable pub block_matches : BlockList → IpAddr → Text → Bool
  unfolding contains_sender contains_domain
  block_matches b ip sender =
      contains_text b.ips (show_ip ip)
      || (contains_sender b.senders sender || contains_domain b.sender_domains sender)
