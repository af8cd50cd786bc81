-- ===== src/Lib.antt =====
-- Hackerpot is a honeypot library: an engine runs detectors over each request, scores what they find,
-- lets a policy choose a response, and records the hit. This library models the parts that decide.
--
-- The engine (src/core.ts) hands out one tracker for each address from a registry (src/state.ts),
-- which is a bounded cache (src/internal/lru.ts); runs the detectors over the normalised path
-- (src/internal/http.ts); combines what they found into a score and a confidence (src/evidence.ts);
-- asks the policy (src/policy); applies the guard that refuses an unproven block; and records the
-- hit in a store (src/stores/memory.ts), whose ledger (src/stores/scores.ts) holds the running score
-- of each address. Incidents leave through a hub (src/notify/hub.ts). A block goes into a blocklist
-- (src/blocklist.ts), and an allowlist (src/allowlist.ts, over src/internal/ip.ts) exempts addresses.
-- The detectors of volume (src/detectors) count in the tracker. A site profile (src/site/index.ts)
-- learns which paths the application serves, which the detector of novel paths reads. The audit
-- (src/audit.ts) counts the traffic in a ring of buckets and compares a recent stretch with an older
-- one. The Telnet honeypot reads its stream through a codec of its own (src/protocols/telnet/codec.ts),
-- and the SMTP honeypot runs one session machine for each connection (src/protocols/smtp/honeypot.ts).
--
-- Which file models which part:
--   Common      tests, lists and the association lists that stand for the `Map`s of the source
--   Lru         src/internal/lru.ts: `TtlLru`; Bounds, Recency, Reads and Values are about it
--   Activity    src/state.ts: `IpTracker`; Activity/Registry is `ActivityRegistry`, and
--               Activity/Fingerprints is `FingerprintRegistry`, which Rotation is about
--   Scores      src/stores/scores.ts: `ScoreLedger`
--   Blocklist   src/blocklist.ts: `MemoryBlocklist`; Blocklist/Composite is `CompositeBlocklist`
--   Evidence    src/evidence.ts: `certaintyOf`, `confidenceOf`
--   Policy      src/policy: `compileMatch`, `rulePolicy` (Rules), `ladderPolicy` (Ladder), presets
--   Telnet      src/protocols/telnet/codec.ts: `TelnetCodec`
--   Paths       src/internal/http.ts: `normalizePath`, `boundedQuery`
--   Store       src/types.ts, src/stores/query.ts, src/stores/memory.ts: hits, queries, `MemoryStore`
--   Engine      src/core.ts: `evaluate` and `exempt` (Evaluating), `combinedScore` (Scoring), the loop
--               over the detectors (Detecting), `resolveIp` (Proxy)
--   Notify      src/notify/hub.ts: `NotificationHub`; Accounting and Ceiling are about it
--   Histogram   src/internal/histogram.ts: `Histogram`
--   Audit       src/audit.ts: `TrafficAudit`, with the ring (Slots, Ring, Windows, Summary about it), the
--               standard checks (Checks) and the evaluation with its cooldown (Evaluating), which
--               Cooldown, Silence, Speaking, Memory and Steady are about
--   Site        src/site/index.ts: `SiteProfile`; Learning and Counting are about it
--   Addresses   src/internal/ip.ts: the readers of IPv4 and IPv6 addresses; Masks and Values
--   Allowlist   src/allowlist.ts: `Allowlist`; Entries, Prefixes, Covering and Spelling are about it
--   Detectors   src/detectors: rate spike, path and credential brute force, repeat actor, marker
--               drift (Rotating), path novelty (Novelty); Volume is about the first ones, and Objects
--               makes them detectors of the engine
--   Smtp        src/protocols/smtp/honeypot.ts: the session machine; Capture and Limits are about it
--   Examples    runs at concrete inputs
--
-- State is passed explicitly: an operation of a class is a function from the record of its fields to what
-- it returns and the record after it. The clock is an argument. A `Map` is an association list in its
-- insertion order. A tracker is an object that the registry shares with its callers, and `write_back` is
-- the registry after a caller changed it. The detectors of a request share one context: each is given it
-- as the one before left it, with the tracker, the registry of fingerprints and the site profile in it,
-- also after a throw, and the engine goes on with what the last one leaves. Activity/Unlisted is about
-- the queries of that registry. Texts that the code only compares are `String`; texts that it
-- takes apart are lists of UTF-16 code units, or of bytes in the Telnet codec. Points and times are natural
-- numbers. Weights of evidence are twentieths and confidences are fractions, so that rounding plays no
-- part, and the audit's ratios are exact fractions. Loops are structural recursion over the list they
-- walk, so that there is no fuel.
--
-- Not modelled: code outside the repository and what it reads are parameters: `decodeURIComponent`,
-- `Date.parse`, `net.isIPv4` and `net.isIPv6`, trimming, upper and lower case, the cutting of a path that
-- is too long, random ids, the wording of an anomaly, and the patterns of the SMTP commands, as are
-- service tokens and markers. Left out are the engine's enrichment, labels, timing, notices, `reconfigure`
-- and its own calls of the audit, evaluations that interleave at an `await`, a detector that writes after
-- its deadline or puts another object into the shared context, the stores and blocklists that live outside
-- the process, the detectors of patterns, and the other servers.
pub mod Common
pub mod Lru
pub mod Activity
pub mod Scores
pub mod Audit
pub mod Blocklist
pub mod Evidence
pub mod Policy
pub mod Telnet
pub mod Store
pub mod Paths
pub mod Engine
pub mod Notify
pub mod Histogram
pub mod Site
pub mod Addresses
pub mod Allowlist
pub mod Detectors
pub mod Smtp
pub mod Examples
