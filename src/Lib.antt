-- ===== src/Lib.antt =====
-- ServerWall: a load balancer and mail firewall, with a relay for outbound mail. A connection
-- is checked against access lists and country rules, gets a backend from a balancer, and is
-- proxied. An HTTP request is inspected by a firewall of rules; an SMTP session runs spam checks
-- before and after DATA and forwards what they do not reject.
--
-- Which file models which part:
-- - Core/Types: serverwall-core/src/types.rs. A `Backend` shared by reference is a position of
--   the pool; its atomic counters are numbers with the wrap of 64 bits. `open_guard` and
--   `drop_guard` are `ConnectionGuard::new` and its `drop`; Core/Types/Guards has every
--   interleaving of them.
-- - Core/Balancer: serverwall-core/src/balancer. `LoadBalancer` is the trait with what each
--   implementation owes; RoundRobin, LeastConn and IpHash are values of it. `DefaultHasher` is
--   a parameter.
-- - Core/Acl: serverwall-core/src/acl. `evaluate`, `from_config`, `from_global_ip`,
--   `check_path` (`PathAcl::check`) and `check_country` (`GeoEngine::check`). Networks, regular
--   expressions and the country database are parameters.
-- - Core/Smtp and Imap: serverwall-core/src/proto, smtp.rs (`parse_command`) and imap.rs.
-- - Antispam/Score, Lists, Pipeline and Headers: serverwall-antispam/src. `run_pre_data` and
--   `run_post_data` take the checks as functions of their context. `f64` is a parameter.
-- - Antispam/RateLimit and Behavior: of serverwall-antispam/src/predata, the check rate_limit.rs
--   with its maps as state, and early_talker.rs, behavior.rs and helo.rs. RateDb:
--   storage/rate_db.rs of the same crate.
-- - Proxy/Pipeline: serverwall-proxy/src/pipeline.rs. The balancer's state is a field of the
--   record.
-- - Proxy/Smtp: serverwall-proxy/src/proxy/smtp_proxy.rs. `proxy` runs `command_loop` on the
--   list of the client's lines; `handle` is the match on the command, with a function for each
--   arm that does more than reply. The log of a session is what it replies and forwards.
--   `forward_to_backend` is the field `forward` of the environment; Forward models it, and
--   Transfer what it writes after DATA.
-- - Proxy/Http: serverwall-proxy/src/proxy/http_proxy.rs. `handle_request` is split at its
--   comments: Guards and `admit` are the tests in their order, `choose_backend` opens the guard,
--   Outbound builds the request, Responses the answer, Exchange and Handler put them together.
--   A builder of `hyper` is the list of its headers, or none after a value that is refused.
--   Core/Ja3: serverwall-core/src/tls/ja3.rs, with a position as the bytes from it on.
-- - Relay/Spool, Scheduler, Bounce, Delivery: serverwall-relay/src/queue, bounce.rs and
--   delivery/mod.rs. A directory of the spool is a list of files by name (Spool/Files);
--   `deliver_message` is one attempt on one message, `settle` and `handle_temp_fail` what
--   follows it, and `process_queue` (Delivery/Queue) a pass over the due messages in turn.
-- - Relay/TrustedHosts, Policy and Receiver: serverwall-relay/src/trusted_hosts.rs,
--   outbound_policy and receiver.rs. `serve`, which is told whether the peer is trusted, is
--   `SmtpSession::handle`, with a function for each arm that does more than reply.
-- - Core/Config: serverwall-core/src/config/loader.rs, `load_config`, `merge_config` and
--   `validate_config` on the fields of schema.rs that they read; an error is what was found.
--   Core/Config/Editor: config/editor.rs. `edit` is what each operation does around its change of a
--   list; the file is its content.
-- - Core/Health: serverwall-core/src/health, durations and `check_round`, one round of
--   `HealthChecker::run`, with the probe as a parameter.
-- - Waf/Request, Rules, Matcher, Anomaly, Engine, Parser, RateLimit: serverwall-waf/src, file by
--   file, with the rules of inspection under Rules/Builtin. A compiled set of regular expressions
--   is the function from a text to the positions of the rules that match; the compiler and
--   `regex::escape` are parameters. `inspect` runs the limits and the rules on a scorer that is
--   passed along.
-- - Tests: the theorems at concrete inputs. Base: shared helpers and lemmas.
--
-- Text is a list of character codes; changes of case and white space are those of ASCII. The
-- command loops have as much fuel as there are lines and one more; each round uses up a line at
-- least. The byte and command counts of a session do not wrap in the model. The loop of
-- `normalize_path` has one round more than there are characters, of which each round takes one.
-- The loops over the extensions and groups of a ClientHello have a round for each byte. The map of
-- the headers of a request is read in the order of first arrival; in Rust the order is open.
--
-- Not modelled: connecting to backends, TLS, the IMAP, Stratum and TCP proxies, DNS and outgoing
-- SMTP, DKIM, the other spam checks, the defaults of configuration files, the probes of
-- the health checks, the timer of the delivery and attempts at the same time, the operations of
-- the editor on other lists and sections, logging and the interfaces.
pub mod Base
pub mod Core
pub mod Proxy
pub mod Antispam
pub mod Relay
pub mod Tests
pub mod Waf
