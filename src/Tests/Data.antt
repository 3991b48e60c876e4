-- ===== src/Tests/Data.antt =====
-- A store with one open invoice of two grin, an older one that is paid, and no payment yet.
use goblin_pay.Prelude.{none, some, [], ◌∷◌}
use goblin_pay.Prelude.Int.{pos}
use goblin_pay.Store.{memo, InvoiceStatus, open_status, Invoice, Store}
use goblin_pay.Matching.{IncomingPayment}
use goblin_pay.Record.{Received, Context}

abbrev pub sample_invoice : Invoice
sample_invoice = record {
  id = "inv-1";
  order_ref = some "order-1";
  expected_amount = some (pos 2_000_000_000);
  expiry = some 2000;
  status = open_status;
  created_at = 1000;
  token = some "tok-1";
  memo_text = none;
  recipient_pubkey = some "master";
  fiat_amount = none;
  fiat_currency = none;
  match_mode = some memo;
  paid_payment_id = none;
  paid_at = none;
  quote_rate = none;
  quote_source = none;
  confirmed_at = none;
  rail = some "grin1";
  slate_id = some "slate-i1";
  slatepack = some "BEGINSLATEPACK.";
}

abbrev pub paid_invoice : Invoice
paid_invoice = record sample_invoice {
  id = "inv-0";
  order_ref = some "order-0";
  created_at = 900;
  token = some "tok-0";
  status = InvoiceStatus.paid;
  paid_payment_id = some "slate-0";
  paid_at = some 950;
  slate_id = some "slate-i0";
}

abbrev pub sample_store : Store
sample_store = record {
  invoices = paid_invoice ∷ sample_invoice ∷ [];
  payments = [];
  users = [];
  endpubs = [];
  deliveries = [];
  clock = 1500;
  faults = [];
}

abbrev pub sample_payment : IncomingPayment
sample_payment = record {
  slate_id = "slate-1";
  amount_nano = 2_000_000_000;
  recipient_hex = "master";
  memo_text = some "order-1";
}

abbrev pub sample_context : Context
sample_context = record {
  payer_hex = some "payer";
  recipient_hex = "master";
  memo_text = some "order-1";
  default_mode = memo;
  webhook = some ("https://shop", "secret");
  event_id = "event-1";
  to_body = λ p. p.event_id;
}

-- It pays one nanogrin too little.
abbrev pub short_payment : Received
short_payment = record {
  slate_id = "slate-1";
  amount_nano = 1_999_999_999;
  kernel_excess = "08";
  proof = none;
  s2_armor = "BEGINSLATEPACK.";
}
