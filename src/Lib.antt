-- ===== src/Lib.antt =====
-- VaultDrive's web client: a vault of encrypted files. This library models the logic of the client
-- that does not draw: vaultdrive_client/src of the repository. A name of the program keeps
-- its words in snake_case (`shamirSplit` is `shamir_split`); a `Map` or `Set` is a list in insertion
-- order, a text that the code looks into is a list of code units (`Text`), one that it only compares
-- is a `String`, a promise that may fail is an `Outcome`, and state is passed on explicitly.
--
-- Shamir (utils/shamir.ts): the tables of GF(256), `gfMul`, `gfDiv`, `shamirSplit`,
--   `shamirReconstruct`. Shamir/Xor, Table and Field show that bytes with `^` and `gfMul` are a field;
--   Lagrange is interpolation over any such field; Reconstruct, Split and RoundTrip lead to the round
--   trip. The random coefficients are a parameter.
-- Offline (utils/offline-sync.ts in Sync, utils/offline-db.ts in Queue): actions that wait in the
--   browser's store until they can be sent. `OfflineQueue` is the store with its next key; what the
--   browser makes of a transaction is an argument. Classify, Match and Chunks are about what is sent
--   and what the answers mean, Storage about the store. Dashboard is the synchronisation and the review
--   of components/layout/dashboard-layout.tsx, over the two; SyncSteps and SyncFate follow each action
--   through it to its fate (Fate), Settled and SentOnce say when it leaves the store and how often it is
--   sent, Review what becomes of an action that the user renames or drops.
-- Search (utils/vault-search-index.ts): Terms makes normal forms and tokens, Index has the maps of
--   `VaultSearchIndex` with every operation that changes them, Query is `search`. Linked and Enriched
--   show that the maps agree, Sync that enrichments stay, Results what a search gives. `toLowerCase`
--   and `normalize("NFD")` are parameters.
-- Transfer (utils/public-upload-outcome.ts and utils/owner-upload-outcome.ts in Upload,
--   utils/download-error.ts in Failure): what an answer means and whether to try again. `JSON.parse`
--   is a parameter.
-- Sharing (utils/folder-share.ts, utils/file-request-credential.ts and utils/owner-private-key.ts in
--   FileKey, utils/folder-share-sync.ts in Sync, ById and Ancestors): new files of a shared folder get a
--   key under the folder's key. `Crypto` and `Server` are the operations of utils/crypto.ts and the
--   server's answers, parameters that may fail; `History` holds the requests that were sent, and an
--   answer may depend on all before it.
-- PinEnrollment (utils/pin-enrollment.ts): the private key is wrapped under a PIN. `KeyWrapping` has
--   the operations of utils/crypto.ts.
-- Office (utils/filemon-office.ts): the names of cells in Cells, the reader of delimited text in
--   Delimited, elements by name in Dom, numbers in Digits, `parseXlsxBuffer` in Workbook, the contract
--   in Contract, the test for external entities in External, `parseXmlDocument` in Cfdi, and
--   `parseFilemonOfficeDocument` in Documents. WorkbookBounds, Kept and Soundness are about what they
--   make. The archive of JSZip (`Archive`), the tree of DOMParser (`Dom`) and what else the browser gives
--   (`Browser`) are parameters; a number that may be NaN is an option, `none` where it is.
-- Sealing (utils/crypto.ts, utils/zk-room-crypto.ts): hexadecimal texts in Hex, the envelopes of salt,
--   initialisation vector and sealed bytes in Envelope, DER in Der, PEM in Pem and PemKeys, files and
--   their metadata in Files, rooms in Rooms. `WebCrypto` has the operations of crypto.subtle, Argon2 and
--   base64, and `Documented` what their documents promise; bytes that are drawn are arguments. Opens has
--   the round trips; StandIn is a `WebCrypto` for which `Documented` holds.
-- Preview (workers/preview.worker.ts): the credentials that a file's key is opened with in Key, the
--   worker's messages in Worker. Branches, Failures and Opened are about its answers.
-- OptimisticVault (hooks/use-optimistic-vault.ts): changes shown before the server answers, and the
--   ledger that takes them back.
-- Marquee (hooks/useMarqueeSelection.ts): files selected by a drag; Path is about the moves of one.
--   `Numbers` are the browser's coordinates.
-- RescueLedger (utils/rescue-ledger.ts): staged transfers, in IndexedDB's `ObjectStore`, a parameter, or
--   in memory; how the database meets a call (`Access`) is an argument. Refines compares them with maps.
-- FolderUpload (utils/folder-upload.ts): the folders that an upload needs are found or created. Paths is
--   about the directories of a path as texts, Resolved, Placed and Parents about what
--   is found or created.
-- Base: what these share, with JavaScript's values (strict equality, Map, Set, texts, JSON, sort).
--
-- Loops are structural recursions, except five. `fill_tables` runs its 255 rounds. `letters_from` and
-- `decimal_from` take the number itself (or one more) as fuel: it falls to a tenth or less in each
-- round, and the round trip of Office holds for every number. `ancestors_from` takes a number of
-- rounds and gives `none` when they are not enough, as the program's loop has no bound; that enough
-- rounds exist is shown where the parents lead up. `length_bytes` shifts a number of 32 bits by 8 and
-- runs at most five rounds, which the round trip of DER shows to be enough.
--
-- Not modelled: WebCrypto, Argon2, JSZip and DOMParser themselves, which the client calls; the React
-- views, with the handlers of the pages; the client's forms, links, sessions, document triage, move
-- targets and decrypted streams; and the Go server. The messages with a number or a name in them are
-- constructors, and numbers are exact, as JavaScript's are up to 2 ^ 53.
pub mod Base
pub mod FolderUpload
pub mod Marquee
pub mod Office
pub mod Offline
pub mod OptimisticVault
pub mod PinEnrollment
pub mod Preview
pub mod RescueLedger
pub mod Sealing
pub mod Search
pub mod Shamir
pub mod Sharing
pub mod Transfer
