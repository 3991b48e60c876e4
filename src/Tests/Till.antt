-- ===== src/Tests/Till.antt =====
-- The checkout, the wallet and the grin1 rail at concrete values.
use goblin_pay.Prelude.{
  ℕ, ◌≡◌, ◌⊎◌, refl, true, false, Option, none, some, is_some, [], ◌∷◌, ◌++◌, All, codes, utf8,
  from_utf8, Text, trim, arith,
}
use goblin_pay.Store.{Invoice, ok, monad}
use goblin_pay.Invoice.{get_by_token, mark_paid}
use goblin_pay.Endpub.{user_for_pubkey}
use goblin_pay.Matching.{matching}
use goblin_pay.Record.{recording}
use goblin_pay.Record.Rejection.{OnlyPayments}
use goblin_pay.Foreign.{FinalizedInvoice, Notice, settle_finalized}
use goblin_pay.Foreign.Again.{calm, settle_finalized-again}
use goblin_pay.Wallet.{
  SlateState, standard1, standard2, invoice2, WalletError, wallet_failed, slatepack_error, Fallible,
  fine, failed, Slate, VersionedSlate, Library, Call, ◌>>=◌, give, fail, reading, slate_of,
  expect_state, slate_kernel_excess, build_proof, receive_slatepack, receive_slate,
}
use goblin_pay.Wallet.Proof.{encode_hex}
use goblin_pay.Wallet.Message.{proof_message-binds}
use goblin_pay.Wallet.Guards.{
  IsRecorded, receive_slate-eq-receive_slatepack, receive_slatepack-IsRecorded,
}
use goblin_pay.Wallet.Open.{
  Lifecycle, IsSeedStore, create_from, open_at, open_at-keeps, open_at-seeds,
}
use goblin_pay.Checkout.{Encoders, build_info}
use goblin_pay.Checkout.Uri.{percent_encode, pay_uri}
use goblin_pay.Checkout.Link.{
  percent_decode, read_link, amount_field, memo_field, memo_chars, read_link-pay_uri,
}
use goblin_pay.Checkout.Tabs.{
  MethodTab, HasPanel, build_tabs, active_tabs, Honoured, build_tabs-active,
}
use goblin_pay.Checkout.Gates.{permitted, build_tabs-permitted}
use goblin_pay.Checkout.Paste.{
  PasteWallet, must_be_in_full, PayResultPage, Response, shown, finished_invoice, route_paste, act,
  settle_paste, paste_in_wallet, paste_for, manual_slatepack,
}
use goblin_pay.Checkout.Sealed.{
  handed_out, manual_slatepack-withheld, finalizing_by, NotFinalized, paste_in_wallet-unanswered,
}
use goblin_pay.Setup.{base_path}
use goblin_pay.Tests.Boot.{default_config}
use goblin_pay.Tests.Data.{sample_invoice, paid_invoice, sample_store, short_payment}

abbrev noted_invoice : Invoice
noted_invoice = record sample_invoice { memo_text = some " Thé & cake " }

read_link-pay_uri_example :
    (read_link (pay_uri (codes "nprofile1q") noted_invoice) ≡ (
      codes "goblin:" ++ codes "nprofile1q",
      amount_field noted_invoice.expected_amount ++ memo_field noted_invoice.memo_text,
    ))
    × (percent_decode (percent_encode (memo_chars noted_invoice.memo_text))
        ≡ some (utf8 (memo_chars noted_invoice.memo_text)))
    × (from_utf8 (utf8 (memo_chars noted_invoice.memo_text))
        ≡ some (memo_chars noted_invoice.memo_text))
read_link-pay_uri_example =
    read_link-pay_uri (codes "nprofile1q") noted_invoice (ground arith) (ground arith)

accented : percent_encode (codes "é") ≡ codes "%C3%A9"
unfolding percent_encode
accented = refl

abbrev sample_encoders : Encoders
sample_encoders = record {
  profile = λ key relays. some (codes "npub1q", codes "nprofile1q");
  svg = λ payload logo. some (codes "<svg/>");
}

build_tabs-active_example :
    All
      (λ (t : MethodTab).
        HasPanel (build_info sample_encoders sample_invoice default_config none none false) t.key)
      (build_tabs
        (build_info sample_encoders sample_invoice default_config none none false)
        (some (codes "goblin"))).0
    × (((build_tabs
            (build_info sample_encoders sample_invoice default_config none none false)
            (some (codes "goblin"))).0
          ≡ [])
        ⊎ (active_tabs
              (build_tabs
                (build_info sample_encoders sample_invoice default_config none none false)
                (some (codes "goblin"))).0
            ≡ 1))
    × Honoured
        (some (codes "goblin"))
        (build_tabs
          (build_info sample_encoders sample_invoice default_config none none false)
          (some (codes "goblin"))).0
        (build_tabs
          (build_info sample_encoders sample_invoice default_config none none false)
          (some (codes "goblin"))).1
build_tabs-active_example =
    build_tabs-active (build_info sample_encoders sample_invoice default_config none none false)
      (some (codes "goblin"))

build_tabs-permitted_example :
    All
      (λ (t : MethodTab). permitted default_config false t.key ≡ true)
      (build_tabs
        (build_info sample_encoders sample_invoice default_config
          (some (codes "grin1q"))
          none
          false)
        none).0
build_tabs-permitted_example =
    build_tabs-permitted sample_encoders sample_invoice default_config (some (codes "grin1q")) none
      false none

abbrev sample_notice : Notice
sample_notice = record {
  webhook = some ("https://shop", "secret");
  event_id = "event-1";
  to_body = λ p. p.event_id;
}

abbrev answered : FinalizedInvoice
answered = record { slate_id = "slate-i1"; amount_nano = 0; kernel_excess = "09" }

-- A wallet that reads every paste as a payment that is too small, and one that reads an invoice answer.
abbrev paying_wallet : PasteWallet (Unit {0})
paying_wallet = record {
  slatepack_kind = λ w armor. fine ("slate-1", standard1);
  receive_slatepack = λ armor w. (fine short_payment, w);
  finalize_invoice_slatepack = λ armor w. (failed wallet_failed, w);
  panics = λ w. false;
}

abbrev answering_wallet : PasteWallet (Unit {0})
answering_wallet = record {
  slatepack_kind = λ w armor. fine ("slate-i1", invoice2);
  receive_slatepack = λ armor w. (failed wallet_failed, w);
  finalize_invoice_slatepack = λ armor w. (fine answered, w);
  panics = λ w. false;
}

abbrev short_page : PayResultPage
short_page = record {
  base = [];
  token = "tok-1";
  okay = false;
  message = must_be_in_full 2_000_000_000 1_999_999_999;
  s2_armor = "";
}

abbrev short_reply : Response PayResultPage × Unit {0}
short_reply = (shown short_page, tt)

pasted_short :
    (manual_slatepack paying_wallet default_config sample_notice "tok-1"
      (codes "BEGIN")
      true
      tt
      sample_store).0
    ≡ ok short_reply
unfolding manual_slatepack paste_for settle_paste paste_in_wallet act route_paste recording matching
    monad user_for_pubkey mark_paid get_by_token base_path
pasted_short = refl

manual_slatepack-withheld_example :
    (handed_out short_reply.0 ≡ "")
    × OnlyPayments
        (get_by_token "tok-1" sample_store).1
        (manual_slatepack paying_wallet default_config sample_notice "tok-1"
          (codes "BEGIN")
          true
          tt
          sample_store).1
manual_slatepack-withheld_example =
    manual_slatepack-withheld paying_wallet default_config sample_notice "tok-1" (codes "BEGIN")
      true tt sample_store short_reply pasted_short refl

finishes_answer :
    (paste_in_wallet answering_wallet sample_invoice (codes "BEGIN") tt).0
    ≡ finished_invoice answered
unfolding paste_in_wallet act route_paste
finishes_answer = refl

paste_in_wallet-unanswered_example :
    (paste_in_wallet answering_wallet paid_invoice (codes "BEGIN") tt
      ≡ paste_in_wallet
          (finalizing_by answering_wallet paying_wallet.finalize_invoice_slatepack)
          paid_invoice
          (codes "BEGIN")
          tt)
    × NotFinalized answering_wallet paid_invoice (codes "BEGIN") tt
paste_in_wallet-unanswered_example =
    paste_in_wallet-unanswered answering_wallet paying_wallet.finalize_invoice_slatepack
      paid_invoice (codes "BEGIN") tt refl

settle_finalized-again_example :
    (settle_finalized sample_notice answered
      (settle_finalized sample_notice answered (calm sample_store)).1).1
    ≡ (settle_finalized sample_notice answered (calm sample_store)).1
settle_finalized-again_example =
    settle_finalized-again sample_notice sample_notice answered sample_store

abbrev sample_bytes : Text
sample_bytes = 9 ∷ 255 ∷ []

abbrev sample_amount : ℕ
sample_amount = 7

proof_message-binds_example :
    (sample_amount ≡ sample_amount) × (sample_bytes ≡ sample_bytes) × (sample_bytes ≡ sample_bytes)
proof_message-binds_example =
    proof_message-binds sample_amount sample_amount sample_bytes sample_bytes sample_bytes
      sample_bytes (omega arith) (omega arith) refl refl

-- A library that reads one slate, and takes part in everything.
abbrev first_slate : Slate
first_slate = record {
  id = "slate-1";
  amount = 2_000_000_000;
  state = standard1;
  payment_proof = none;
}

abbrev second_slate : Slate
second_slate = record first_slate { state = standard2 }

abbrev library_of : Slate → Library (Unit {0})
library_of slate = record {
  read_slatepack = λ w armor. fine slate;
  receive_tx = λ w s. (fine s, w);
  issue_invoice_tx = λ w n. (fine slate, w);
  finalize_tx = λ w s. (fine s, w);
  finalize_and_post = λ w s. (fine s, w);
  post_tx = λ w s. (fine tt, w);
  cancel_tx = λ w i. (fine tt, w);
  tx_log = λ w i. fine (none ∷ some (9 ∷ []) ∷ []);
  armor = λ w s. fine (codes "BEGIN");
  into_version = λ s v. fine (record { version = v; content = s });
  is_uuid = λ i. true;
  verify = λ key message sig. true;
  proof_json = λ p. fine (codes "{}");
}

receive_slate-eq-receive_slatepack_example :
    (receive_slate (library_of first_slate) (record { version = 4; content = first_slate })
        >>= λ pair. give pair.1)
      tt
    ≡ receive_slatepack (library_of first_slate) (codes "BEGIN") tt
receive_slate-eq-receive_slatepack_example =
    receive_slate-eq-receive_slatepack (library_of first_slate) (codes "BEGIN") first_slate 4 tt
      refl (λ s2. (record { version = 4; content = s2 }, refl))

abbrev first_received : goblin_pay.Wallet.Received
first_received = record {
  slate_id = "slate-1";
  amount = 2_000_000_000;
  s2_armor = codes "BEGIN";
  kernel_excess = codes "09";
  proof = none;
}

received : (receive_slatepack (library_of first_slate) (codes "BEGIN") tt).0 ≡ fine first_received
unfolding receive_slatepack slate_kernel_excess build_proof ◌>>=◌ slate_of reading expect_state fail
    give encode_hex
received = refl

receive_slatepack-IsRecorded_example :
    (slate : Slate) × ((library_of first_slate).read_slatepack tt (trim (codes "BEGIN"))
      ≡ fine slate)
    × IsRecorded (library_of first_slate) slate first_received
receive_slatepack-IsRecorded_example =
    receive_slatepack-IsRecorded (library_of first_slate) (codes "BEGIN") tt first_received received

-- A life cycle whose state is the seed at rest.
abbrev seeds : Lifecycle (Option Text)
seeds = record {
  prepare = λ w. (fine tt, w);
  wallet_exists = λ w. fine (is_some w);
  get_mnemonic = λ w p. elim w [ none ↦ failed wallet_failed | some m ↦ fine m ];
  create_wallet = λ w m p. (fine tt, some m);
  open_wallet = λ w p. (fine tt, w);
  restrict = λ w. (fine tt, w);
}

abbrev same_seed : Option Text → Option Text
same_seed w = w

seeds_tell : (w : Option Text) (p m : Text) → seeds.get_mnemonic w p ≡ fine m → same_seed w ≡ some m
seeds_tell none p m e = absurd (cc e)
seeds_tell (some x) p m e = cc e

seeds-IsSeedStore : IsSeedStore seeds same_seed
seeds-IsSeedStore = record {
  prepare_keeps = λ w. refl;
  open_keeps = λ w p. refl;
  restrict_keeps = λ w. refl;
  exists_tells = λ w b e. cc e;
  mnemonic_tells = seeds_tell;
  create_done = λ w m p e. refl;
}

open_at-keeps_example :
    same_seed (open_at seeds (some (codes "other words")) (codes "pw") (some (codes "words"))).1
    ≡ some (codes "words")
open_at-keeps_example =
    open_at-keeps seeds same_seed seeds-IsSeedStore (some (codes "other words")) (codes "pw")
      (some (codes "words")) refl

opened : (open_at seeds (some (codes "words")) (codes "pw") none).0 ≡ fine tt
unfolding open_at create_from ◌>>=◌ reading
opened = refl

open_at-seeds_example :
    same_seed (open_at seeds (some (codes "words")) (codes "pw") none).1 ≡ some (codes "words")
open_at-seeds_example =
    open_at-seeds seeds same_seed seeds-IsSeedStore (codes "words") (codes "pw") none opened
