-- ===== src/Lib.antt =====
-- jasonisnthappy: an embedded document database. This library models its core, the Rust code
-- under src/core.
--
-- Parts and files:
--   Base        the shared names, byte buffers, maps, texts, errors and locks (src/core/errors.rs)
--   Wal         the write-ahead log (src/core/wal.rs): Checksum (crc32_ieee), Frame (the bytes of
--               header and frame), Disk (the file and the two handles that share its offset), Log
--               (write_frame, sync), Reads (open, read_frame, read_all_frames, refresh_frame_count),
--               Checkpoint; the other files hold the proofs
--   Mvcc        transaction ids, snapshots, document versions (src/core/mvcc.rs): Manager
--               (TransactionManager), Versions (VersionChain); the other files hold the proofs
--   Lru         the page cache (src/core/lru_cache.rs): Arena (the nodes and their links), Cache (the
--               operations); the other files hold the proofs
--   Pager       pages and the header page (src/core/pager.rs): Header (Header), State (open, the
--               header, allocation), Pages (reading, writing, flushing), Direct
--               (write_pages_direct); the other files hold the proofs
--   Btree       the tree of the documents' ids (src/core/btree.rs): Node (nodes and their bytes), Store
--               (the pages under the tree, an interface that PagerStore fills by the pager), Tree,
--               Operations (reading and writing nodes, search), Changes (insert, delete, the
--               transaction of a tree), Iterator; the other files hold the proofs
--   Document    documents on pages (src/core/document.rs): Bytes (overflow pages, the loop over a
--               chain), Plain (write_document, read_document, delete_document), Versioned
--               (write_versioned_document, read_versioned_document), Giving (what writing asks of
--               the pager, which PagerGiver fills); the other files hold the proofs
--   Index       the keys of indexes (src/core/index_key.rs): Keys; the other files hold the proofs
--   Json        serde_json::Value, over a parameter for its numbers
--   Query       the query language (src/core/query): Lexer and Tokenize (lexer.rs), Ast, Parser and
--               Eval (parser.rs); the other files hold the proofs
--
-- How they interact: a transaction takes its id and its snapshot from the transaction manager. Its
-- documents go to pages that the pager gives, and into the tree of their ids; the pages go through
-- the log to the pager, which keeps dirty pages in the page cache; versions are read and collected
-- by the ids. Queries are texts that the lexer and the parser turn into nodes, which test a document.
--
-- How the code is modelled:
--   A method that changes its object is a function from the state to the new state. Errors are
--   values of `Error`. The map of active transactions lists its entries. A lock keeps whether it is
--   poisoned. A file is its bytes; `try_clone` makes two handles that share one offset, as the
--   operating system has it. Sequences of calls are lists of calls or a relation between states; the
--   atomic reads and the lock of a beginning transaction are steps of their own there, with other
--   calls in between. A subtraction that falls below 0 wraps around, as in a release build.
--   In Query, Lru, Pager, Btree and Document a panic is an outcome, in Query the same as the end of
--   the fuel, which the theorems rule out.
--
-- Bounds and fuel:
--   u16, u32 and u64 keep their wrap-around where the code can reach it. A loop over the frames of a
--   file has the number of bytes as fuel, a loop of the lexer the number of characters and one, and
--   the parser four calls for each token. A descent in the B-tree has the height of the tree and one
--   as fuel, and count the number of entries and one. Writing a document has the bytes
--   that are left as fuel, and reading one the 250000 pages that the code allows.
--
-- What is not modelled: metrics and log messages; seeks to 2^63 or more, which the system refuses;
-- the tables of Unicode, the floats of the standard library and the texts of serde_json, which are
-- parameters, as is the pager that a checkpoint writes to; thread schedules within one lock; and the
-- parts that the modules above do not name: transactions, collections, the database, the web server,
-- the command line, the bindings.
pub mod Base
pub mod Btree
pub mod Document
pub mod Index
pub mod Json
pub mod Lru
pub mod Mvcc
pub mod Pager
pub mod Query
pub mod Wal
