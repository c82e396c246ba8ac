-- ===== src/Lib.antt =====
-- smtp-nel-filter: an SMTP session filter on top of libnids, with MIME parsing.
--
-- A stream of bytes from a client is buffered for each connection (src/smtp.c) and handed to
-- recursive-descent parsers. They share a lexical layer (src/mime.c: white space, comments,
-- numbers, words), on which the header fields stand: dates (src/_time.c), addresses
-- (src/address.c), identifiers (src/msg-id.c) and MIME fields (src/content-type.c,
-- src/disposition.c). Fields are shown to the NEL engine, whose answer in `permit` decides
-- whether they are accepted.
--
-- Cursors. A parser of the program takes `message`, `length` and `*index`, and returns a code of
-- include/smtp.h. Here a cursor is the list of the bytes from `message[*index]` to
-- `message[length - 1]` (no parser modelled here looks at what stands before the cursor), and a
-- parser returns an Outcome: `ok value rest` for SMTP_NO_ERROR with the cursor moved to `rest`,
-- or the error, on which the cursor stays. A `char` is the value of its byte, 0 to 255. Debug
-- output has no counterpart.
--
-- Fuel. Comments nest and are read by loops that need not end, so the parsers that allow CFWS
-- take a number that bounds the nesting and the rounds of a loop. `out_of_fuel` is no code of
-- the program, and neither is `fault`, for code that dereferences a null pointer or one that was
-- never set, frees memory twice, writes behind an array or moves a cursor behind its buffer. A
-- comment needs no more fuel than its size and two, a quoted string one more than its bytes, a
-- phrase one more than its words and the bytes of each, a list one more than its elements; the
-- theorems state these bounds. Other loops recur on the bytes that are left.
--
-- Platform. The size of a pointer, and the answer of malloc to a request by its size, are
-- parameters.
--
-- - Prelude.antt: shared names; bytes; int and uint32_t. Prelude/Slices.antt: take and drop.
-- - Outcome.antt: results of parsers and the shapes in which the code goes on after a call.
--   Outcome/Suffix.antt, Outcome/Inversion.antt and Outcome/Fuel.antt: lemmas on them.
-- - Platform.antt: the parameters above.
-- - Mime/Chars.antt, Mime/Scan.antt, Mime/Space.antt: src/mime.c, the classes of bytes, the
--   scanners, and white space with comments; their children hold the proofs.
-- - Mime/Words.antt: src/mime.c, words and phrases. Mime/Words/Atom.antt,
--   Mime/Words/Quoted.antt, Mime/Words/RoundTrip.antt, Mime/Words/Phrases.antt: how they are read
--   back.
-- - Mime/Unstructured.antt: src/mime.c, unstructured text. Mime/Unstructured/Folding.antt:
--   folded lines. Mime/Lines.antt: ends of lines.
-- - DateTime.antt, DateTime/Names.antt, DateTime/Zone.antt, DateTime/Field.antt: src/_time.c.
-- - Version.antt: src/version.c.
-- - Mime/Lists.antt: src/mime.c, lists of elements. Mime/Lists/Grammar.antt: what they read;
--   Mime/Lists/Print.antt: how they are read back.
-- - Address.antt: src/address.c. Address/Spec.antt: an address; Address/Text.antt: how addresses
--   are written; Address/Ends.antt: where they end; Address/RoundTrip.antt, Address/Groups.antt:
--   how they are read back; Address/Crash.antt: groups that are not closed; Address/Domain.antt:
--   domains and literals; Address/Edit.antt: lists that are filled.
-- - MsgId.antt: src/msg-id.c. MsgId/RoundTrip.antt: identifiers in angle brackets.
-- - Fields.antt: the header fields of addresses, identifiers and texts, one file of src for
--   each. Fields/Policy.antt: src/from.c and src/to.c; Fields/Resent.antt: src/resent-*.c.
--   Fields/RoundTrip.antt, Fields/Mistakes.antt: what they accept and refuse.
-- - Body/Base64.antt: src/body.c, smtp_mime_base64_body_parse. Its children hold the letters of
--   a text, the round trip and the bound on the output. Body/QuotedPrintable.antt:
--   smtp_mime_quoted_printable_body_parse, which takes two rounds for a byte at most;
--   Body/QuotedPrintable/Reference.antt: what a text means, Body/QuotedPrintable/Rounds.antt and
--   Body/QuotedPrintable/Equivalence.antt: that this is what is decoded,
--   Body/QuotedPrintable/RoundTrip.antt: texts that were written. Body/Binary.antt: bodies that
--   are copied; Body/Parts.antt: smtp_mime_body_parse.
-- - Session/Buffer.antt: src/smtp.c, cli_buf and svr_buf. Session/Buffer/Queue.antt: each
--   operation; Session/Buffer/Bounded.antt: all operations as those of a bounded queue.
-- - Session/Table.antt: src/smtp.c, the table of connections. Session/Table/Lookup.antt: the
--   search; Session/Table/Pool.antt: the cells.
-- - Session/Dispatch.antt: src/smtp.c, process_smtp, and src/tcp.c. Session/Dispatch/Cells.antt,
--   Session/Dispatch/Places.antt and Session/Dispatch/Invariant.antt: where the cells are;
--   Session/Dispatch/Life.antt: a stream from its first packet to its last;
--   Session/Dispatch/Refusal.antt: clients that the parsers refuse.
-- - Envelope.antt: the parsers smtp_wsp_* of src/mime.c and src/address.c, and src/path.c,
--   smtp_adl_path_parse. Envelope/Mailboxes.antt, Envelope/RoundTrip.antt: paths with one address.
-- - MemPool.antt: src/mem_pool/mem_pool.c. MemPool/Invariant.antt: where the blocks are.
-- - Mime/Tokens.antt: src/mime.c, tokens. Content.antt: MIME parameters of src/mime.c, and
--   src/encoding.c, src/x-token.c and src/language.c. Content/Parameters.antt: how parameters are
--   read back. Content/Kind.antt, Content/Kind/Part.antt: src/content-type.c, the field and what
--   it notes in a part; Content/Kind/Agreement.antt: the kinds of bodies, and long boundaries;
--   Content/Kind/Defaults.antt: the types that the program makes, and the tests of a type.
--   Content/Disposition.antt: src/disposition.c; Content/Disposition/RoundTrip.antt: the file
--   names of attachments; Content/Disposition/Build.antt: dispositions made of values.
-- - Tests.antt: concrete inputs.
--
-- Memory. An array is the list of its bytes, and a pointer into it is an offset. A cell of
-- smtp_info_pool is its number, and the linked lists of cells are lists; the hash table is a
-- function from the index to the chain. What stands in memory where malloc puts an array is a
-- parameter, and so are the growing strings of mmapstring and the lists of clist. The NEL engine
-- is a parameter, too: a function that looks at a field and may set `permit`, and a stream that
-- takes the bytes of a body.
--
-- Not modelled: the commands, answers and messages, whose parsers are grammars of re2c in *.re
-- files and an interface here (Session/Dispatch.antt: they see the fields of a connection that
-- are kept, but not its stack of parts and its NEL environment), the options of the command line
-- (src/main.c), the release of a tree of MIME parts (src/mime.c), which needs the destructors of
-- those grammars, and the copies of other libraries (clist, chash, mmapstring, charconv).
pub mod Prelude
pub mod Outcome
pub mod Platform
pub mod Mime
pub mod Body
pub mod Session
pub mod DateTime
pub mod Version
pub mod Address
pub mod MsgId
pub mod Fields
pub mod Envelope
pub mod MemPool
pub mod Content
mod Tests
