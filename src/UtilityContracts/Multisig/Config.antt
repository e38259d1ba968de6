-- ===== src/UtilityContracts/Multisig/Config.antt =====
-- Who has to approve a provider's withdrawals: the set-up, its validation, its change and its end.
use utility_contracts.Base.{
  ℕ, ◌+◌, ◌/◌, ℤ, Bool, true, false, not, ◌&&◌, ◌||◌, List, [], ◌∷◌, put, is_some, ltb, ◌==◌,
  if◌then◌else◌, ◌>>=◌, ◌>>◌, gets, modify, panic_if, or_panic,
}
use utility_contracts.UtilityContracts.Errors.{
  multi_sig_already_configured, multi_sig_not_configured, invalid_finance_wallet_count,
  invalid_signature_threshold,
}
use utility_contracts.UtilityContracts.Multisig.Types.{
  MultiSigConfig, State, Env, Action, require_auth, publish, msig_cfg, msig_upd, msig_off,
}

abbrev pub min_finance_wallets : ℕ
min_finance_wallets = 3

abbrev pub max_finance_wallets : ℕ
max_finance_wallets = 5

abbrev pub min_multisig_threshold : ℕ
min_multisig_threshold = 2

unfoldable pub length : List ℕ → ℕ
length [] = 0
length (x ∷ xs) = length xs + 1

unfoldable pub contains : List ℕ → ℕ → Bool
contains [] w = false
contains (x ∷ xs) w = x == w || contains xs w

-- `validate_unique_signers`: no signer stands again further on.
unfoldable pub unique : List ℕ → Bool
unfolding contains
unique [] = true
unique (x ∷ xs) = not (contains xs x) && unique xs

abbrev pub minimum_multisig_threshold : ℕ → ℕ
minimum_multisig_threshold wallet_count =
    let half_rounded_up = (wallet_count + 1) / 2 in
    if ltb min_multisig_threshold half_rounded_up then half_rounded_up else min_multisig_threshold

abbrev pub validate_multisig_config : List ℕ → (required_signatures : ℕ) → Action (Unit {0})
validate_multisig_config signers required_signatures = do
  panic_if (ltb (length signers) min_finance_wallets || ltb max_finance_wallets (length signers))
      invalid_finance_wallet_count
  panic_if (not (unique signers)) invalid_finance_wallet_count
  panic_if
      (ltb required_signatures (minimum_multisig_threshold (length signers))
        || ltb (length signers) required_signatures)
      invalid_signature_threshold

abbrev pub config_of : (provider : ℕ) → Action MultiSigConfig
config_of provider = do or_panic (← gets (λ s. s.config provider)) multi_sig_not_configured

abbrev store_config : (provider : ℕ) → MultiSigConfig → State → State
store_config provider config s = record s { config = put provider config s.config }

unfoldable pub configure_multisig_withdrawal :
    Env
    → (provider : ℕ) → (finance_wallets : List ℕ) → (required_signatures : ℕ) → ℤ
    → Action (Unit {0})
unfolding length unique
configure_multisig_withdrawal env provider finance_wallets required_signatures threshold_amount = do
  require_auth env provider
  existing ← gets (λ s. s.config provider)
  panic_if (is_some existing) multi_sig_already_configured
  panic_if
      (ltb (length finance_wallets) min_finance_wallets
        || ltb max_finance_wallets (length finance_wallets))
      invalid_finance_wallet_count
  validate_multisig_config finance_wallets required_signatures
  modify (
      store_config provider (record {
        provider = provider;
        finance_wallets = finance_wallets;
        required_signatures = required_signatures;
        threshold_amount = threshold_amount;
        is_active = true;
        created_at = env.now;
      }))
  modify (λ s. record s { request_count = put provider 0 s.request_count })
  modify (publish (msig_cfg provider required_signatures threshold_amount))

unfoldable pub update_multisig_config :
    Env
    → (provider : ℕ) → (new_finance_wallets : List ℕ) → (new_required_signatures : ℕ) → ℤ
    → Action (Unit {0})
unfolding length unique
update_multisig_config env provider new_finance_wallets new_required_signatures
      new_threshold_amount =
    do
      config ← config_of provider
      require_auth env provider
      validate_multisig_config new_finance_wallets new_required_signatures
      modify (
          store_config provider (record {
            provider = provider;
            finance_wallets = new_finance_wallets;
            required_signatures = new_required_signatures;
            threshold_amount = new_threshold_amount;
            is_active = config.is_active;
            created_at = config.created_at;
          }))
      modify (publish (msig_upd provider new_required_signatures new_threshold_amount))

unfoldable pub disable_multisig : Env → (provider : ℕ) → Action (Unit {0})
disable_multisig env provider = do
  require_auth env provider
  config ← config_of provider
  modify (store_config provider (record config { is_active = false }))
  modify (publish (msig_off provider))
