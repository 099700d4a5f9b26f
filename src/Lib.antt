-- ===== src/Lib.antt =====
-- ovid: a development for the program that finds by controlled experiments what a workload needs of
-- its environment.
--
-- The parts of the program and the modules that model them:   Core         crates/ovid-core:
-- digests, identifiers, trust tiers, claim states, boundary events   Domain
-- crates/ovid-domain: dependencies and their order, trials, the baseline verdict, the
-- causal classifiers, the scope, and candidate, proposed and verified worlds   Application
-- crates/ovid-application: the workflow, the ports with the merging of observations,
-- and the use case `prove`   Evidence     crates/ovid-evidence: evidence records, the ledger,
-- claims and their confidence   Observer     crates/ovid-observer/src/aggregate.rs, dns.rs,
-- strace.rs: event reduction, DNS                traffic, and the parser of strace's output
-- Planner      crates/ovid-planner/src/miners.rs: splitting a mined line into a command   Gateway
-- crates/ovid-gateway/src/analysis.rs, proxy.rs: what a run dialled, and the decisions
-- of the egress gateway   Packs        crates/ovid-packs/src/schema.rs, registry.rs: packs and
-- what the registry answers   Repository   crates/ovid-repository/src/lib.rs: the snapshot of a
-- repository   WorldLock    crates/ovid-world/src/lib.rs: worlds, their digest, the lock and its
-- Compose export   Cli          crates/ovid-cli/src/lab.rs: the laboratory that runs trials;
-- Lab/Plans is what a                treatment becomes, Lab/Shims the shadowed search path,
-- Lab/Intents and Lab/Tools what                the candidates of a trial are made of, and
-- Lab/Port the port itself   Prelude      the helpers that they share; Examples: tests at concrete
-- inputs A definition has the name of the function, method or type that it models, in lower case
-- with underscores, and its module has the name of the source file. A child module named for a
-- property holds the lemmas for it.
--
-- How they interact: the laboratory reports observations and trial records, which `prove` merges
-- (Ports), judges (Baseline, Classify) and turns into a world (World), stepping the workflow and
-- appending to the journal on the way. The ledger is what a journal writes to. The laboratory of
-- Cli plans a trial, runs it behind the gateway, and makes its observations from the events that
-- the observer parsed and reduced, by the network analysis, the packs' resolvers and the gateway's
-- intents.
--
-- Conventions: a text is the list of its UTF-8 bytes (in Planner, of its code points), and a
-- literal is shut until `lit` is unfolded. A `BTreeMap` is an association list in the order of its
-- keys, and a `BTreeSet` the list of its elements in order. A `HashMap` is an association list, of
-- which no modelled result depends on the order. The lines of a trace and of a proxy request are
-- taken as ASCII. Machine integers keep their wrap-around: counters are taken modulo 2^64, where a
-- debug build panics instead, which is no outcome of the model. `&mut` arguments are states passed
-- through. In `prove` the mutable variables are the record `Run`, an early return with `?` is the
-- outcome `failed`, and a debug assertion or `expect` that does not hold is the outcome `panicked`.
--
-- Parameters: SHA-256, hexadecimal and JSON texts are the records `Codec` (World) and `JsonCodec`
-- (Record); a theorem that needs more than that they are functions says so: `IsLine` that the JSON
-- of one record is one line, not blank, that parses back, which holds of a record without floats
-- (the parser of floats is exact only with serde_json's `float_roundtrip`), and for tampering that
-- digests do not collide. The laboratory and the journal are the records `Laboratory` and
-- `Journal`, of which nothing is assumed but what a theorem names, and so are `WorldCodec`
-- (WorldLock), the captures of the regular expressions `Regexes` (Strace), the operations on
-- 64-bit floats `Floats` (Prelude), the parser of one YAML document (Packs), and what the
-- laboratory needs of its host: `Host`, `Effects` and `Naming` (Cli/Lab). The clock is an
-- argument, and so is what the file system answers: a ledger's file is its text, an append may
-- stop after any number of bytes, and reading it is taken to succeed.
--
-- Fuel: `name_fuel`, 44 rounds, is enough for `read_name`, since 10 jumps and 33 labels may come
-- before the last round; the decoder and the scanner of quoted strings take at least one byte in a
-- round, and so do the arguments of an execve line and the trimming of a suffix, so the length of
-- the text is enough; other loops are structural.
--
-- Not modelled: stage timings and progress output; how a workload is chosen and the other miners;
-- manifests, diffs and exports; the inventory scanners, which read TOML, YAML and JSON through
-- other crates; the files of claims and packs; the sockets, the forwarding and the threads of the
-- gateway; walking and hashing a repository; starting processes and virtual machines; links of a
-- shadow directory that cannot be made, which the code ignores, and directories of the search path
-- that are relative; the test kit; and the commands but for the laboratory.
pub mod Prelude
pub mod Cli
pub mod Core
pub mod Evidence
pub mod Domain
pub mod Gateway
pub mod Observer
pub mod Packs
pub mod Planner
pub mod Repository
pub mod WorldLock
pub mod Application
pub mod Examples
