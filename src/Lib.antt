-- ===== src/Lib.antt =====
-- GoblinPay, a self-hosted till for Grin payments: shops create invoices, payers send slatepacks
-- over Nostr (or settle an invoice by the grin1 rail), and the till matches each payment to an
-- invoice, watches the chain for its kernel and notifies the shop by webhook.
--
-- The parts and their files:
-- - Store: the SQLite tables (migrations/) as lists of rows in the order of insertion, a clock in
--   seconds, and a schedule of faults. An `Action` is a function of the store; every statement
--   first asks the schedule whether it fails, so a theorem that says nothing of the schedule holds
--   whatever statements fail. `attempt` is code that logs or drops an error.
-- - Invoice (crates/gp-core/src/invoice.rs): create, lookups with lazy expiry, the guarded changes
--   of status, the grin1 rail.
-- - Endpub (crates/gp-core/src/endpub.rs): the derived keys of a tenant's users and their rotation.
-- - Derive (crates/gp-core/src/derive.rs): the child secrets of the server's key; Endpub and Directory
--   take the derivation as an argument.
-- - Directory (crates/gp-server/src/directory.rs): the identities that a gift wrap can be for, from
--   Invoice and Endpub.
-- - Matching (crates/gp-core/src/matching.rs): one payment to an invoice, by derived key, memo or
--   amount, with the guard on the amount. It uses Invoice and Endpub.
-- - Record (crates/gp-server/src/record.rs, and `mark_replied` of crates/gp-server/src/ingest.rs):
--   the payment's row, the match, and a webhook or the undoing of a rejected payment.
-- - Receiver (crates/gp-server/src/ingest.rs): the wallet's answer to a slatepack, recorded through
--   Record, and the payments without a reply.
-- - Confirm (crates/gp-wallet/src/confirm.rs): what a node's answer says of a kernel's depth.
-- - Payments (crates/gp-server/src/payments.rs): the confirmation poll; it asks Confirm for each
--   payment and confirms invoices through Invoice.
-- - Foreign (crates/gp-server/src/foreign.rs): the settlement of a finalized grin1 invoice and the
--   sweep that cancels the wallet contexts of expired ones; Foreign.Api has the JSON-RPC methods.
-- - Wallet (crates/gp-wallet/src/lib.rs and proof.rs): opening, receiving, issuing and finalizing over
--   the Grin library as an interface (`Library`, `Lifecycle`), and the payment proof.
-- - Checkout (crates/gp-server/src/checkout.rs): what a pay page shows (the parent), its link (Uri),
--   tabs (Tabs), the page and its status (Page) and the paste form (Paste), which routes a slatepack
--   to the wallet and settles through Record or Foreign.
-- - Connector (crates/gp-server/src/invoices.rs and auth.rs, crates/gp-core/src/store.rs): the bearer
--   token, the pricing step and the grin1 rail; Connector.Endpoint has the two handlers.
-- - Rates (crates/gp-core/src/rates.rs): the price oracle, its cache and its fallback.
-- - Config (crates/gp-core/src/config.rs): the configuration from the environment; Config.Load reads
--   every variable in the order of the code, Config.Valid has the checks.
-- - Setup (crates/gp-core/src/setup.rs): the wizard's answers; Setup.Env the environment file and its
--   parser; Setup.Boot the first boot from it (crates/gp-server/src/setup.rs).
-- - Webhook (crates/gp-core/src/webhook.rs): payloads, amounts, timestamps, the backoff and the
--   queue of deliveries. The calendar of crates/gp-server/src/payments.rs stands beside it.
-- - Webhookd (crates/gp-server/src/webhookd.rs): one pass of the delivery worker over that queue; the
--   answer of the shop to a signed request is a parameter.
-- - Nostr.Protocol (crates/gp-nostr/src/protocol.rs): notes, armor and the subject of a message.
-- - Nostr.Ingest (crates/gp-nostr/src/ingest.rs): the pipeline for one gift wrap, with its markers
--   and rate limits, over a key directory, a decryption and a wallet as parameters.
-- - Nostr.Relays (crates/gp-nostr/src/relays.rs): the set of relays.
-- - System: sequences of the operations on the store, and what all of them preserve.
-- - Prelude holds the shared tests, list functions and machine integers; Tests applies the theorems
--   at concrete inputs.
--
-- How code is read. An operation has the name of its function. A TEXT column that holds one of a few
-- words is a data type. ORDER BY leaves equal rows in the order of insertion. Signed 64-bit columns
-- are integers with the wrap or the clamp that the code writes at each cast (Prelude.Int). Timestamps
-- are seconds since 1970 up to the year 9999, compared as numbers where the code compares their
-- text. A text that the code takes apart is the list of its characters (Unicode scalar values), and
-- Prelude.Utf8 has its bytes where the code asks for them; other texts are native strings.
--
-- Bounds. `decimal` divides by ten on a fuel of 20 digits, and a 64-bit number has no more. The
-- search of `child_secret` has as many rounds as a 32-bit counter has values. All other recursion is
-- structural.
--
-- Parameters, since they are not code of the repository or have no part in the logic: the Grin library
-- and node, Nostr decryption, key encodings and relays, floating-point numbers, HTTP answers and JSON,
-- random identifiers, hashes and curves, QR drawing, the readable files, the text that a list of bytes is
-- in the database, and the text of a marker for a slate. Error texts are cut down to their kind.
-- Configuration and setup texts are ASCII without carriage returns.
--
-- Not modelled: two handlers that run between each other's statements (each runs to its end here);
-- HTTP routing, page templates, admin pages and the onion service; the wizard's prompts and file
-- permissions; HMAC, NIP-44, key files and the slatepack codec of the wallet crates.
pub mod Prelude
pub mod Store
pub mod Invoice
pub mod Endpub
pub mod Derive
pub mod Directory
pub mod Matching
pub mod Wallet
pub mod Webhook
pub mod Webhookd
pub mod Checkout
pub mod Config
pub mod Connector
pub mod Setup
pub mod Confirm
pub mod Record
pub mod Payments
pub mod Foreign
pub mod System
pub mod Nostr
pub mod Rates
pub mod Receiver
mod Tests
