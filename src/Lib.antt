-- ===== src/Lib.antt =====
-- lixun is a desktop launcher: a daemon that indexes files and mail and answers queries, a GTK launcher
-- and previews. This library models the daemon's stores, its index writer and its OCR worker, the fusion
-- of lexical and semantic results and the choice of a top hit, the sweep of the cache, the texture cache
-- of the PDF preview, the scanner of mailboxes, and the frames that the processes exchange.
--
-- Parts, and how they interact:
-- - StateFile: the atomic save that the daemon's stores share (crates/lixun-daemon/src). A disk is a
--   function from paths; a save is a list of calls, so that a crash is a stop between two of them or in
--   the middle of a write.
-- - Blocklist, QueryLog, Frecency, QueryLatch, SymlinkAlias: one module per store
--   (crates/lixun-daemon/src/blocklist.rs, query_log.rs, frecency.rs, query_latch.rs, symlink_alias.rs),
--   each with the source's function names. QueryLatch takes its keys from Normalize
--   (crates/lixun-index/src/normalize.rs).
-- - OcrQueue (crates/lixun-extract/src/ocr_queue.rs): the table of OCR jobs, a function for each SQL
--   statement, and the retry of a busy database. OcrTick (crates/lixun-indexer/src/ocr_tick.rs): the
--   worker that takes a job from the queue, runs OCR and hands the text to the index writer. What a tick
--   meets outside is a record, World.
-- - Document (crates/lixun-core/src/lib.rs): what the sources hand to the index. Index
--   (crates/lixun-index/src/lib.rs): the calls that write to Tantivy and read by id, over a record of
--   Tantivy's own calls; Index/Convert is the stored form of a document, Index/Spec what is relied on of
--   Tantivy, Index/Memory an instance of it.
-- - IndexService (crates/lixun-indexer/src/index_service.rs, crates/lixun-mutation/src/lib.rs): the task
--   that owns the writer. Apply has the mutations, Commit the commit and the broadcast, Events the loop
--   and the drain on shutdown, one event at a time; Refines is the abstract index of documents. An OCR
--   text that OcrTick writes is the message upsert_body. Cache is the cache of search results.
-- - CacheSweep (crates/lixun-indexer/src/cache_sweep.rs): stale temporary files, eviction by age, and
--   the call that reaps the zombies of the OCR queue.
-- - Fusion (crates/lixun-fusion/src/rrf.rs): reciprocal rank fusion and the precision-first partition;
--   Fusion/Hits and Fusion/Page (crates/lixun-fusion/src/handle.rs): the two chunks of a hybrid search.
-- - PdfSession (crates/lixun-preview-pdf/src/document_session.rs): the texture cache and the renders in
--   flight.
-- - Mbox (crates/lixun-source-thunderbird/src/mbox.rs): the scanner of mailboxes, and the names and
--   encodings of attachments.
-- - Scoring (crates/lixun-index/src/scoring.rs): the multipliers of a title for a query, and the
--   initials of a title. TopHit (crates/lixun-daemon/src/top_hit.rs): whether the first hit is promoted,
--   from the title, Frecency and QueryLatch.
-- - Wire (crates/lixun-ipc/src/preview.rs): the frames of the preview channel, in which the semantic
--   worker (crates/lixun-semantic-proto/src/lib.rs) and the launcher (crates/lixun-ipc/src/gui.rs) talk
--   too, with the constants of each; Laws and Sync have the codec and the blocking reader.
-- Common holds the shared helpers, Fixtures the concrete parameters of the tests.
--
-- Choices. A text is the list of its code points. Numbers are naturals with the wrap-around of the
-- source's width written out where a value can reach it; i64 values are the integers of Common/Int.
-- Floats are a record of operations, Common/Float; a law of IEEE 754 that a proof needs is a field of
-- IsIeee. A HashMap is an association list whose order nothing relies on, a BTreeSet its ascending list.
-- Loops that pop until something fits take the number of entries as fuel, since each round removes one:
-- the rounds of truncate_from, trim_from and pop_until_fits are shown to be enough by the theorems about
-- them, which name the final state.
--
-- Parameters: serde_json (a pair of functions), NFKD, lower case and the classes of characters, SQLite's
-- clock and its errors, file metadata, the OCR run, the reaper, Tantivy (Tantivy, with the laws IsTantivy,
-- which also take it that a commit that fails keeps what was staged, and IsReliable, for runs in which
-- reads and additions do not fail), the answer of an index search as a function of the documents and the
-- time, the nearest-neighbour searches, the branch that `select!` takes, and the LRU cache, whose
-- documented order of entries is IsLru.
--
-- Not modelled: log lines; opening and repairing the SQLite file; timers; GTK, Poppler, tantivy and
-- tokio; and the parts of the daemon, the sources and the previews that the list above leaves out.
pub mod Common
pub mod Fixtures
pub mod StateFile
pub mod Blocklist
pub mod QueryLog
pub mod Normalize
pub mod Frecency
pub mod QueryLatch
pub mod SymlinkAlias
pub mod OcrQueue
pub mod OcrTick
pub mod Document
pub mod Index
pub mod IndexService
pub mod CacheSweep
pub mod Fusion
pub mod PdfSession
pub mod Mbox
pub mod Scoring
pub mod TopHit
pub mod Wire
