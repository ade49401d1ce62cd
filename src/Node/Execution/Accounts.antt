-- ===== src/Node/Execution/Accounts.antt =====
-- crates/augecoin-node/src/execution.rs, `execute_operation`: the operations on one account, its
-- key, its data, its sale and its gift.
use augecoin.Base.{
  ℕ, ◌&&◌, not, Option, none, some, [], ltb, ◌==◌, Bytes, length, checked_add, u64_max,
}
use augecoin.Core.Account.{
  AccountState, Account, state_eq, add_balance, subtract_balance, increment_n_operation,
  default_info,
}
use augecoin.Core.Operation.{ListForSale, Purchase, InfoChange, Operation}
use augecoin.Core.Codec.Write.{to_bytes_stripped}
use augecoin.Node.Execution.State.{
  Reason, operation_failed, Env, Exec, ◌>>=◌, ◌>>◌, pure, fail_if, lift, or_fail, load_account,
  put_account,
}
use augecoin.Node.Execution.Steps.{
  validate_account_data_len, check_name_available, move_name_claim, expect_n_operation, charge_fee,
  ct_max_account_data,
}

abbrev pub with_key : Bytes → Account → Account
with_key key acc = record acc { account_info = record (acc.account_info) { account_key = key } }

module _ (env : Env) where
  unfoldable pub execute_change_key : ℕ → ℕ → ℕ → Bytes → Exec ℕ
  unfolding load_account expect_n_operation charge_fee increment_n_operation put_account
  execute_change_key account n fee key = do
    acc ← load_account env account
    expect_n_operation account n acc
    paid ← charge_fee account fee acc
    put_account account (increment_n_operation (with_key key paid))
    pure fee

  unfoldable pub execute_change_key_signed : Operation → ℕ → ℕ → ℕ → Bytes → Bytes → Exec ℕ
  unfolding load_account expect_n_operation charge_fee increment_n_operation put_account
  execute_change_key_signed op account n fee key signature = do
    acc ← load_account env account
    expect_n_operation account n acc
    fail_if (not (env.crypto.valid_key key)) (operation_failed account Reason.invalid_new_key)
    fail_if (not (env.crypto.verify key signature (to_bytes_stripped op)))
        (operation_failed account Reason.new_key_signature)
    paid ← charge_fee account fee acc
    put_account account (increment_n_operation (with_key key paid))
    pure fee

  unfoldable pub execute_recover_founds : ℕ → Exec ℕ
  unfolding load_account put_account default_info
  execute_recover_founds account = do
    acc ← load_account env account
    fail_if (ltb 0 acc.balance) (operation_failed account Reason.still_has_balance)
    put_account account (record acc {
      balance = 0;
      n_operation = 0;
      name = none;
      account_type = 0;
      account_data = [];
      account_seal = [];
      account_info = default_info;
    })
    pure 0

  unfoldable pub execute_list_account_for_sale : ListForSale → Exec ℕ
  unfolding load_account expect_n_operation charge_fee increment_n_operation put_account state_eq
  execute_list_account_for_sale l = do
    acc ← load_account env l.account
    expect_n_operation l.account l.n_operation acc
    paid ← charge_fee l.account l.fee acc
    fail_if (state_eq paid.account_info.state AccountState.gift_pending)
        (operation_failed l.account Reason.gift_pending_cannot_be_listed)
    put_account l.account (
        increment_n_operation (record paid {
          account_info = record (paid.account_info) {
            state = AccountState.for_sale;
            price = l.sale_price;
            account_to_pay = l.account_to_pay;
            new_public_key = some l.new_ed25519_public_key;
            locked_until_block = l.locked_until_block;
          };
        }))
    pure l.fee

  unfoldable pub execute_delist_account : ℕ → ℕ → ℕ → Exec ℕ
  unfolding load_account expect_n_operation charge_fee increment_n_operation put_account
  execute_delist_account account n fee = do
    acc ← load_account env account
    expect_n_operation account n acc
    paid ← charge_fee account fee acc
    put_account account (
        increment_n_operation (record paid {
          account_info = record (paid.account_info) {
            state = AccountState.owned;
            price = 0;
            account_to_pay = 0;
            new_public_key = none;
            locked_until_block = 0;
          };
        }))
    pure fee

  abbrev pub or_max : Option ℕ → ℕ
  or_max none = u64_max
  or_max (some t) = t

  -- the four checks of the listing
  unfoldable pub check_listing : Purchase → Account → Exec (Unit {0})
  unfolding state_eq
  check_listing p target = do
    fail_if
        (not (state_eq target.account_info.state AccountState.for_sale)
          && not (state_eq target.account_info.state AccountState.reserved))
        (operation_failed p.buyer_account (Reason.not_for_sale target.account_info.state))
    fail_if (not (target.account_info.price == p.amount)) (
        operation_failed p.buyer_account (Reason.price_mismatch target.account_info.price p.amount))
    fail_if (ltb env.block_number target.account_info.locked_until_block)
        (operation_failed p.buyer_account Reason.account_locked)
    fail_if (not (target.account_info.account_to_pay == p.seller_account))
        (operation_failed p.buyer_account Reason.seller_mismatch)

  -- the purchased AUGEID with its new key
  unfoldable pub sold : Purchase → Account → Account
  sold p target = record target {
    account_info = record (target.account_info) {
      state = AccountState.owned;
      price = 0;
      account_to_pay = 0;
      new_public_key = none;
      locked_until_block = 0;
      account_key = p.new_ed25519_public_key;
    };
    n_operation = 0;
    account_seal = [];
    updated_on_block_active_mode = env.block_number;
  }

  -- `target` is loaded before the buyer pays, and written back last.
  unfoldable pub execute_buy_account : Purchase → Exec ℕ
  unfolding load_account check_listing checked_add subtract_balance increment_n_operation
      put_account add_balance sold
  execute_buy_account p = do
    target ← load_account env p.account_to_purchase
    check_listing p target
    buyer ← load_account env p.buyer_account
    fail_if (not (p.n_operation == buyer.n_operation)) (
        operation_failed p.buyer_account
          (Reason.invalid_n_operation buyer.n_operation p.n_operation))
    paid ←
        lift (subtract_balance (or_max (checked_add p.amount p.fee)) buyer)
          (λ e. operation_failed p.buyer_account (Reason.balance e))
    put_account p.buyer_account (increment_n_operation paid)
    seller ← load_account env target.account_info.account_to_pay
    richer ←
        lift (add_balance p.amount seller)
          (λ e. operation_failed target.account_info.account_to_pay (Reason.balance e))
    put_account target.account_info.account_to_pay richer
    put_account p.account_to_purchase (sold p target)
    pure p.fee

  unfoldable pub execute_change_account_info : InfoChange → Exec ℕ
  unfolding load_account expect_n_operation validate_account_data_len charge_fee
      check_name_available move_name_claim increment_n_operation put_account
  execute_change_account_info i = do
    acc ← load_account env i.account
    expect_n_operation i.account i.n_operation acc
    validate_account_data_len i.account (length i.new_account_data)
    paid ← charge_fee i.account i.fee acc
    (λ s.
        lift
          (check_name_available i.account i.new_name paid.name env.existing_name_index
            s.name_pending)
          (λ e. e) s)
    move_name_claim env i.account paid.name i.new_name
    put_account i.account (
        increment_n_operation (record paid {
          account_info = record (paid.account_info) { account_key = i.new_ed25519_public_key };
          name = i.new_name;
          account_type = i.new_type;
          account_data = i.new_account_data;
          account_seal = i.new_account_seal;
        }))
    pure i.fee

  unfoldable pub execute_create_account : ℕ → Bytes → Bytes → Exec ℕ
  unfolding load_account put_account state_eq
  execute_create_account number pubkey initial_metadata = do
    fail_if (ltb ct_max_account_data (length initial_metadata))
        (operation_failed 0 (Reason.initial_metadata_too_large (length initial_metadata)))
    fail_if (not (env.crypto.valid_key pubkey)) (operation_failed 0 Reason.invalid_public_key)
    account ← load_account env number
    fail_if (not (state_eq account.account_info.state AccountState.reserved))
        (operation_failed number (Reason.not_reserved number account.account_info.state))
    put_account number (record account {
      account_info = record (account.account_info) {
        state = AccountState.owned;
        account_key = pubkey;
      };
      updated_on_block_active_mode = env.block_number;
      n_operation = 0;
      account_data = initial_metadata;
      account_seal = [];
    })
    pure 0

  unfoldable pub execute_gift_account : ℕ → ℕ → Bytes → ℕ → Exec ℕ
  unfolding load_account expect_n_operation charge_fee increment_n_operation put_account state_eq
  execute_gift_account account n recipient fee = do
    acc ← load_account env account
    expect_n_operation account n acc
    fail_if (not (env.crypto.valid_key recipient))
        (operation_failed account Reason.invalid_recipient_key)
    fail_if (state_eq acc.account_info.state AccountState.gift_pending)
        (operation_failed account Reason.pending_gift)
    paid ← charge_fee account fee acc
    put_account account (
        increment_n_operation (record paid {
          account_info = record (paid.account_info) {
            state = AccountState.gift_pending;
            new_public_key = some recipient;
          };
        }))
    pure fee

  unfoldable pub execute_accept_gift : ℕ → ℕ → ℕ → Exec ℕ
  unfolding load_account expect_n_operation charge_fee put_account state_eq
  execute_accept_gift account n fee = do
    acc ← load_account env account
    expect_n_operation account n acc
    fail_if (not (state_eq acc.account_info.state AccountState.gift_pending))
        (operation_failed account Reason.not_awaiting_gift)
    recipient ←
        or_fail acc.account_info.new_public_key (operation_failed account Reason.no_recipient_key)
    paid ← charge_fee account fee acc
    put_account account (record paid {
      account_info = record (paid.account_info) {
        state = AccountState.owned;
        account_key = recipient;
        new_public_key = none;
      };
      updated_on_block_active_mode = env.block_number;
      n_operation = 0;
      account_seal = [];
    })
    pure fee
