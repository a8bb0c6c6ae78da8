-- ===== src/Lib.antt =====
-- mcp-contract: policies for MCP servers, inferred from their manifests, monitored and enforced.
--
-- A manifest lists the tools of a server. Inference (src/mcp_contract/pie) turns it into a policy: for
-- each of five capability classes a status and a list of values. The monitor (bcm) maps each runtime
-- event to a class and a value, and classifies it against the policy and against what the manifest
-- implies. The egress proxy (proxy) enforces the network part of a policy on live traffic by the same
-- rule for hosts. A fleet runs inference, the audit, the gate and the monitor over many servers.
--
-- Base      texts, lists, JSON and YAML values, exceptions as results, built-in conversions
-- Posix     posixpath.normpath and basename, str.split and str.strip; Posix.Under: which absolute
--           paths a prefix covers
-- Models    src/mcp_contract/models.py: the data (Models), to_dict and from_dict (Models.Codec),
--           Manifest.hash (Models.Hash), the report (Models.Report)
-- Loader    src/mcp_contract/manifest.py: load_manifest (Loader), server names and nested tool lists
--           (Loader.Names)
-- Bcm       src/mcp_contract/bcm: diff.py (Bcm.Diff), contract.py (Bcm.Contract), report.py
--           (Bcm.Offline), monitor.py (Bcm.Monitor)
-- Regex     regular expressions as Python's re matches them, and what a match is
-- Pie       src/mcp_contract/pie/inference.py (Pie.Infer), and pie/classifier.py: the patterns
--           (Pie.Patterns), the words of a tool (Pie.Words), _classify_net (Pie.Net), the other
--           classes and classify_tool (Pie.Classifier)
-- Proxy     src/mcp_contract/proxy: plan.py (Proxy.Plan), server.py (Proxy.Server)
-- Documents src/mcp_contract/policy/conformance.py: the check (Documents.Conformance), the schema as
--           predicates (Documents.Conformance.Schema)
--           policy/io.py: documents written (Documents.Emission), read (Documents.Policies), and
--           imported from foreign files (Documents.Imports)
-- Fleet     src/mcp_contract/fleet.py: configurations (Fleet.Config), the launch of a server
--           (Fleet.Launch), its redacted summary (Fleet.Redaction), the verdicts of verify and audit
--           (Fleet.Verdicts), of infer and run (Fleet.Runs), the batch verbs and the aggregate
--           (Fleet.Aggregate)
-- Docker    src/mcp_contract/ral/docker.py: the arguments of a container, and what is asked of it
-- Export    src/mcp_contract/report/export.py: the SARIF log, without its wording
-- Tests     runs on concrete inputs, and the theorems at concrete inputs
--
-- How the code is modelled. A str is the list of its code points; lower() changes the ASCII
-- letters. A dict is the list of its entries with text keys, as in JSON: a YAML mapping with
-- another key is not a document of the model, and dict() of pairs is refused where a key is no
-- text. A float is its 64-bit pattern. An exception is an error value that keeps its class and not
-- its message. What a hook of the monitor raises ends the run (Bcm.Monitor.Outcome). Hashing a
-- manifest fails where json.dumps does (Models.Hash.hash_of). A mutated object is returned as a
-- new value: track_tool_ctx gives back the stamped event, handle_event the new state of a run. A
-- request of the proxy is the list of its effects in order. All loops are structural recursions,
-- and the repetition of a pattern ends after as many rounds as the text has characters
-- (Regex.rounds), which is enough since each round reads something. No pattern of the program
-- matches the empty text. The group of a pattern is its whole match, but for Fleet.Launch.var_re,
-- whose name and default are read off the match. The timed loop of Monitor.run recurs on the
-- outcomes of its rounds (Bcm.Monitor.Rounds).
--
-- Parameters. What Python prints for a value that is no str and float() (Base.Builtins), the file
-- system and the parsers (Loader.Library, Documents.Policies.Files), the digits of regular
-- expressions, repr and the equality of numbers (Documents.Conformance.Builtin), the classes of
-- characters (Pie.Patterns.Unicode), paths (Fleet.Runs.Paths, Fleet.Config.Places), the backends
-- of a fleet (Fleet.Runs.Adapter), json.loads and json.dumps, SHA-256 of the canonical JSON,
-- urlsplit, int() and base64 (Proxy.Server.Stdlib), the answers of the network
-- (Proxy.Server.World), the classifier of tools and the source of suggestions
-- (Pie.Infer.Classifier).
--
-- Not modelled: the printed rows of a fleet, the SIEM rows and the wording of the SARIF log, the
-- streams of the adapters and their parsers, the command line. The byte relay of a tunnel, threads,
-- sockets' time-outs and log messages are I/O.
pub mod Base
pub mod Loader
pub mod Models
pub mod Regex
pub mod Posix
pub mod Bcm
pub mod Pie
pub mod Proxy
pub mod Documents
pub mod Tests
pub mod Fleet
pub mod Export
pub mod Docker
