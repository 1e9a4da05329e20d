-- ===== src/Tests/Sample.antt =====
-- A corridor, an anchor that answers every call, and a payment.
use corridor_in_a_box.Base.{true, false, none, some, [], ◌∷◌, codes}
use corridor_in_a_box.Types.{PartyRef, PaymentIntent, SettlementRef, Money}
use corridor_in_a_box.Types
use corridor_in_a_box.Outcome.{ok}
use corridor_in_a_box.Anchor.{
  Quote, accepted, OpenTransaction, to_account, TransactionStatus, native, no_kyc, stellar_payment,
}
use corridor_in_a_box.Corridor.{Corridor, prefunded, sep31, sender, public, refund_sender}
use corridor_in_a_box.Corridor
use corridor_in_a_box.State.{CorridorState}
use corridor_in_a_box.Idempotency.{StoredRun, Store}
use corridor_in_a_box.Breaker.{Rows}
use corridor_in_a_box.Engine.{EngineDeps, ExecuteOptions, attested}

abbrev pub sample_corridor : Corridor
sample_corridor = record {
  id = "usdc-ngn";
  source_protocol = prefunded;
  dest = record {
    asset = "NGN";
    protocol = sep31;
    endpoints = record {
      home_domain = "anchor.example";
      transfer_server_sep31 = some "https://anchor.example/sep31";
      transfer_server = none;
      base_url = none;
      web_auth = some "https://anchor.example/auth";
      kyc_server = none;
      quote_server = none;
      endpoints_verified_at = some "2026-01-01";
    };
  };
  fx = record {
    quote_source = Corridor.QuoteSource.native;
    who_holds_risk = sender;
    quote_ttl_seconds = 60;
    min_quote_remaining_seconds = 45;
  };
  compliance_method = none;
  settlement = record {
    bridge_asset = "USDC";
    network = public;
    asset_issuer = "GA5Z";
    receive_asset = none;
    receive_asset_issuer = none;
  };
  recovery = record {
    max_retries = 2;
    timeout_seconds = 60;
    refund_wait_seconds = 60;
    rollback = refund_sender;
    reconcile = record { poll_seconds = none; stall_polls = none; external_stall_seconds = 600 };
    breaker_failures = 3;
  };
  limits = record { min_amount = some (codes "1"); max_amount = some (codes "500") };
  proof = none;
}

abbrev pub sample_intent : PaymentIntent
sample_intent = record {
  idempotency_key = "k1";
  corridor_id = "usdc-ngn";
  sender = record { id = "s"; jurisdiction = none; sep12_id = none; anchor_customer_id = none };
  recipient = record { id = "r"; jurisdiction = none; sep12_id = none; anchor_customer_id = none };
  source_amount = record { asset = "USDC"; amount = codes "5" };
  destination_fields = none;
}

abbrev pub sample_quote : Quote
sample_quote = record {
  id = "q1";
  price = codes "1500";
  expires_at = 1_000_000;
  source_amount = record { asset = "USDC"; amount = codes "5" };
  dest_amount = record { asset = "NGN"; amount = codes "7500" };
  fee = none;
  firm = true;
}

abbrev pub sample_opened : OpenTransaction
sample_opened = record {
  transaction_id = "t1";
  instructions = to_account "GDST" (some "m1") none none;
  amount_in = none;
  deposit_address = none;
  memo = none;
  memo_type = none;
}

abbrev pub sample_status : TransactionStatus
sample_status = record {
  status = "completed";
  phase = none;
  settled = true;
  terminal_failure = false;
  awaiting_input = false;
  refunds = none;
  amount_in = none;
  deposit_address = none;
  memo = none;
  memo_type = none;
}

abbrev pub sample_ref : SettlementRef
sample_ref = Types.SettlementRef.stellar "abc" (some 7) (some "100") none

abbrev pub sample_options : ExecuteOptions
sample_options = record { owner = none; trust_manifest = false; dry_run = false }

-- The clock goes on by a millisecond with every call.
abbrev pub sample_deps : EngineDeps
sample_deps = record {
  now = λ n. n;
  hash_corridor = λ c. 9;
  rivals = λ store. store;
  resolve = λ n intent c. some (record {
    trust = attested;
    capabilities = record {
      protocol = "sep31";
      quotes = native ∷ [];
      kyc = no_kyc;
      settlement = stellar_payment ∷ [];
    };
    has_sending = false;
  });
  request_quote = λ n intent c. ok sample_quote;
  ensure_compliance = λ n intent c. ok (record { status = accepted; customer_id = none });
  open_transaction = λ n intent q c. ok sample_opened;
  get_transaction = λ id n. ok sample_status;
  open_deposit = λ n intent c. ok "d1";
  get_deposit = λ id n. ok sample_status;
  gate = some (λ n ctx. some (true, []));
  find_existing = some (λ n req. ok none);
  submit = λ n req. ok sample_ref;
  confirm_settlement = none;
  refund = λ n req. ok sample_ref;
  chain_verifier = none;
  strategies = none;
  unsafe_skip_gate = false;
  trust_manifest = false;
  has_quote_provider = false;
  has_external_quote = false;
  has_health = true;
  unproven_max_amount = none;
  reconcile_poll_ms = none;
  stall_threshold = none;
}

abbrev pub empty_store : Store
empty_store = record { runs = []; resolutions = [] }

abbrev pub no_rows : Rows
no_rows = []

-- The row of a run that stopped in `settling`.
abbrev pub sample_row : StoredRun
sample_row = record {
  idempotency_key = "k1";
  corridor_id = "usdc-ngn";
  manifest_hash = some 9;
  state = CorridorState.settling;
  version = 5;
  transaction_id = some "t1";
  source_transaction_id = none;
  quote_id = some "q1";
  quote_expires_at = some 1_000_000;
  quote_firm = some true;
  settlement_amount = some (codes "5");
  stellar_tx_hash = none;
  settlement_kind = none;
  settlement_ref = none;
  deposit_address = some "GDST";
  memo = some "m1";
  memo_type = none;
  refund_id = none;
  settlement = none;
  last_error = none;
  owner = none;
}
