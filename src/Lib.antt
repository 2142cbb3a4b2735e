-- ===== src/Lib.antt =====
-- Bojairu's JavaScript: the script of the invitation page
-- (relay/deploy/landing/contact/invite/invite.js) and the database worker of the web app
-- (mobile/web/drift_worker.dart.js, the compiled worker of the Drift database package).
--
-- The parts and their files:
--
-- Prelude: the libraries' names, Boolean tests on numbers, lists, and dictionaries as association
--   lists.
-- Bytes: a byte array is the list of its elements. Bytes/Flat has the reference operations on flat
--   files (byte, write_at, resize). Bytes/Buffer is A.dq, the growable buffer.
-- MemoryFs: the in-memory file system A.he and its open files A.is. The names are those of SQLite's
--   file methods: open_file is aX, read is eO, write is be, truncate is cl, delete is dc, access is
--   cg, close is ci, file_size is ck, lock and unlock are de and dh. A thrown VfsException is its
--   code. MemoryFs/Reach is the step relation of these methods.
-- IndexedDb: files in blocks of 4096 bytes. IndexedDb has A.mB, which collects writes (add_write is
--   jL, update_block is jt, fresh_block is A.mC); IndexedDb/Storage has A.fP (write_back is b5,
--   read_file is bB, truncate_file is bd, create_file is cR, drop_file is cT) over a record of the
--   browser's object stores with their documented laws, Database. IndexedDb/ListDatabase is one
--   such database, for the examples. IndexedDb/Queue is A.d5's queue of operations: join_queue is
--   eu, submit is bV, start_next is fH. IndexedDb/Mirror has the file system that SQLite calls
--   (open_indexed is aX, write_indexed is be, delete_indexed is dc, truncate_indexed is cl,
--   close_indexed is n): the files in memory, those that are never stored, and the queue.
--   IndexedDb/Disk has the ids of the stored files (file_id is bn, put_all is d1), the methods U of
--   the queued operations (run_op), the queue that is worked off on the disk (work_off is fH with
--   A.ko), and the start of a worker (start_indexed is hg, load_all is bO), over the index and the
--   key generator of the browser's object store, Names. Disk/Keeping says when the disk has certain
--   files.
-- Utf8: the encoder A.i0 and its buffer A.nk (encode is a5, encode_units is iu, pair_bytes is jx).
-- Channel: A.ek, the requests of the Drift protocol and the answers to them (send is br, receive is
--   iA, start_closing is n, end_connection is A.jW, ask is in A.fj.cM). Channel/Answers is the step
--   relation of these and counts the futures of each id.
-- Executors: the transactions of the database server A.kS and their turns (put_executor is dY,
--   release is cB, has_turn is A.kW, find_executor is aC). Executors/Ending is about the end of the
--   one that has its turn.
-- Server: the requests of A.kS, over the database and its executors (handle_request is iC, control
--   is aE, query is aD, batch is bR, open_database is bJ, notify is k9).
-- Cancels: the queries of A.kS that can be cancelled (start_query is A.xe in iC, cancel_query is K,
--   end_query is A.kU, goes_on is A.oP).
-- Protocol: the messages of the Drift protocol and the JavaScript values that they are sent as.
--   Protocol/First is the encoding A.h4 (encode is dk, decode is ei, encode_request and
--   encode_response are h2, decode_payload is h0, encode_value is dG, decode_value is dE),
--   Protocol/Second is A.i6 (encode is dk, decode is ei, encode_request is jf, decode_request is
--   ik, encode_response is jg, decode_response is il, encode_value is cE, decode_value is cD).
-- Opfs: the file system over the browser's OPFS. Opfs/Serving and Opfs/Rounds are the worker A.eT:
--   round is a round of its loop T, serve_open is bY, serve_read is cI, serve_write is cK,
--   serve_lock is cH, ensure_handle is aP, idle is a wait that times out; start in Opfs/Life is i2.
--   Opfs/Invariant, Steps and Handles go through all requests. Opfs/Client is the client A.du with
--   its files A.i4: call is a2, read_remote is eG, write_remote is be, lock_remote is de,
--   unlock_remote is dh.
-- TwoFiles: the OPFS file system without a worker, A.dm and its files A.iK (set_flag is dU,
--   open_named is aX, delete_named is dc, access_named is cg, read_named is eG, write_named is be,
--   start_two_files is hL). TwoFiles/Flags has the bytes of the file "meta".
-- Lock: the lock A.bo of the executors and the worker, behind which jobs run one after the other
--   (acquire is cp, begin_job is A.kA, end_job is A.kB, resume_job is A.kC). Lock/Queue has the
--   states that it can reach.
-- Sqlite: the prepared statements of the database delegate A.iS. Sqlite and Sqlite/Statements have
--   the statements A.dn (execute is h5, select_rows is eP, dispose is n, rewind is eI, bind_value
--   is i1) over a record of SQLite's own functions; Sqlite/Compiling has iY and d5 of the database
--   A.h_; Sqlite/Caching has A.cA with its 64 statements (find_statement is fi, run_sql is l6,
--   select_sql is l3, run_statements is kZ, forget_all is kq). Sqlite/Owning has what SQLite
--   documents of open statements.
-- InvitePage: the invitation page. InvitePage/Link and Target have the links and the short code,
--   InvitePage/Copy the copy buttons as lists of effects, InvitePage/Language the language switch.
--
-- The queue hands its operations to the storage, from which a worker loads the in-memory files when
-- it starts (IndexedDb/Disk/Restart composes these); the in-memory files are what SQLite reads and
-- writes.
--
-- Fuel: the loop of jL runs on the number of bytes that are to be written, and each round takes at
-- least one. So do the loops of eG and be of the OPFS client. aP tries six times. The queue is
-- worked off on as many ends as it has operations. The loops of iY run on the length of the text:
-- SQLite reads on, but at a byte zero, where iY does not end. Those of fe and je run on a number of
-- rows that is a parameter; a statement that has more rows counts as one that does not end. All
-- other loops are structural recursion.
--
-- Parameters: the browser's IndexedDB, OPFS and synchronous handles; the database and its
-- executors; the texts of big integers and the comparison == of JavaScript; paths and the UTF-8 of
-- file names; URLSearchParams.get, encodeURIComponent, trim, toLowerCase and the names that every
-- JavaScript object inherits; the random name of a file that is opened without one; what the other
-- functions that A.d5 queues do to the stored files; what the view of a file's buffer holds when the
-- operation of a write runs (view_of), if the write did not outgrow the buffer's backing store, since
-- the view may have been changed in place by then.
--
-- Not modelled: the Dart runtime inside the worker, the SQLite bindings, the names of columns, the
-- channels and the shutdown of the server, and the program's Dart and Go code. The numbers and the
-- names of the OPFS messages are taken as apart: names are shorter than 65520 bytes. Asynchronous
-- calls are taken in the order in which the code awaits them. Numbers are natural numbers below 2 ^
-- 53, where JavaScript's are exact, and bitwise operations are those of natural numbers.
pub mod Prelude
pub mod Bytes
pub mod MemoryFs
pub mod IndexedDb
pub mod InvitePage
pub mod Sqlite
pub mod Utf8
pub mod Channel
pub mod Executors
pub mod Lock
pub mod Opfs
pub mod Protocol
pub mod Server
pub mod TwoFiles
pub mod Cancels
