-- ===== src/Lib.antt =====
-- The Arweave app for Ledger devices.
--
-- The app receives a transaction in chunks, parses it, shows it for review, and signs its deep hash
-- with an RSA key that it derives from the device's seed. The parts stand in these files, with paths
-- from the repository's root:
--
-- - Parser and its children: app/src/parser_impl.c (`parser_init`, `parser_readU16`,
--   `parser_readElement`, `parser_readTag`, `_read`) and `parser_parse` of app/src/parser.c, with
--   the types of app/src/parser_common.h and app/src/parser_txdef.h. The functions of the model
--   bear the names of the code. A call is given its pointers' targets and returns them, on success
--   and on an error (Status). Parser.Layout is the wire format on its own, Parser.Lists a reader of
--   it on lists, with which Parser.Agreement compares the code.
-- - Base64: app/src/b64url.c. The loop's variables are the record `Encoder`; Base64.Sextets is the
--   standard's view of a text as numbers of six bits.
-- - DeepHash: the hashing functions of app/src/parser.c and app/src/crypto_helper.c, over a SHA-384
--   that is a parameter. DeepHash.Tree is the protocol's definition on a tree of byte strings.
-- - Store: app/src/crypto_store.c, over the functions of the SDK, which are the fields of the record
--   `Sdk`. The globals and the two entries in flash are the record `Store`. Store.Flash lists the
--   writes to the flash that `crypto_store_init` makes, in their order, for the states in which a
--   loss of power leaves the flash.
-- - Crypto: app/src/crypto.c, on the store and the digest. `digest_small` is the SHA-256 hash that is
--   signed, with the zeros that stay in its buffer when the SDK reports an error.
-- - Display: the review, that is the items of app/src/parser.c and `parser_validate`, with
--   `_getNumItems` and the device's `_validateTx` of app/src/parser_impl.c. The functions of zxlib
--   that page and format texts are the fields of the record `Ui`.
-- - Buffering: the buffer of zxlib that collects the chunks, as a record of the operations that the
--   app calls, with what their documentation says of them.
-- - Session: app/src/common/tx.c, the message and the transaction in it.
-- - Platform: the constants of zxlib and the functions of the SDK that the handlers use.
-- - Apdu: app/src/apdu_handler.c. A `THROW` is a value, which `handle_apdu` turns into a status
--   word, as the `CATCH` of the code does. Apdu.Leaves and Apdu.Effects list the ways in which a
--   command changes the state.
-- - Actions: app/src/common/actions.h and app/src/addr.c, the answers to a review.
-- - App: app/src/common/main.c, and the relation of the steps that a device may take: a command, an
--   answer of the user to the review on the screen, the making of keys, a restart, a loss of power
--   while the keys are made. App.Flow follows a transaction from its first chunk to the signature.
-- - Fuzz: fuzz/parser_parse.cpp, the target that the fuzzer calls.
-- - Base, Status and Result: what these share.
--
-- Numbers are natural numbers; where the code wraps around at 8 or 16 bits, the model says so. The
-- loops run over lists or count down, and two run on fuel: the digits of a 16-bit number, of which
-- there are at most five, and the loop of the fuzz target over the pages of an item, whose counters
-- have eight bits, so that 256 rounds are enough.
--
-- The length of a message is bounded by the two buffers of app/src/common/tx.c, 24576 bytes at most.
--
-- Not modelled: zxlib and the SDK, whose code is not part of the repository (what is called of them
-- is a parameter), and the hash library under deps/sha512, a copy of another project's. The builds
-- with APP_TESTING are left out. A write to the flash is done or not done: that a loss of
-- power cuts one in two is not described, nor the exception EXCEPTION_IO_RESET, which the SDK alone
-- throws, nor the salt that the SDK draws for a PSS signature: its signature is a function of the
-- key and the hash.
pub mod Base
pub mod Status
pub mod Result
pub mod Parser
pub mod Base64
pub mod DeepHash
pub mod Store
pub mod Crypto
pub mod Display
pub mod Buffering
pub mod Session
pub mod Platform
pub mod Apdu
pub mod Actions
pub mod App
pub mod Fuzz
